-- ===== src/Learning/Leakage.antt =====
-- What the labels up to a bar depend on (agents/technical_analysis/ml/label_generator.py).
use multi_agent_trading_syst.Prelude.{
  ℕ, zero, suc, ◌+◌, ◌-◌, ◌≤◌, ◌<◌, ◌≡◌, refl, sym, ap, ◌∙◌, some, List, [], ◌∷◌, ◌++◌, arith, leb,
  length, Bool-cases, inl, inr,
}
use multi_agent_trading_syst.Prelude.Deque.{drop, length-drop}
use multi_agent_trading_syst.Prelude.Float.{Float}
use multi_agent_trading_syst.Technical.Series.{take, nth}
use multi_agent_trading_syst.Learning.Labels.{
  LabelGenerator, labels, labels_of, label_of, forward_return,
}

module _ {ℓ} {A : Type ℓ} where
  pub take-append : (j : ℕ) (xs ys : List A) → j ≤ length xs → take j (xs ++ ys) ≡ take j xs
  take-append zero xs ys h = refl
  take-append (suc j) [] ys h = absurd (omega (arith, h))
  take-append (suc j) (x ∷ xs) ys h = ap (λ l. x ∷ l) (take-append j xs ys (omega (arith, h)))

  pub take-take : (j m : ℕ) (xs : List A) → j ≤ m → take j (take m xs) ≡ take j xs
  take-take zero m xs h = refl
  take-take (suc j) zero xs h = absurd (omega (arith, h))
  take-take (suc j) (suc m) [] h = refl
  take-take (suc j) (suc m) (x ∷ xs) h = ap (λ l. x ∷ l) (take-take j m xs (omega (arith, h)))

  pub take-drop : (j n : ℕ) (xs : List A) → take j (drop n xs) ≡ drop n (take (n + j) xs)
  take-drop j zero xs = let e : 0 + j ≡ j = omega arith in rw e refl
  take-drop zero (suc n) [] = let e : suc n + 0 ≡ suc n = omega arith in rw e refl
  take-drop (suc j) (suc n) [] = let e : suc n + suc j ≡ suc (n + suc j) = omega arith in rw e refl
  take-drop j (suc n) (x ∷ xs) =
      let e : suc n + j ≡ suc (n + j) = omega arith in rw e (take-drop j n xs)

  pub nth-take : (n m : ℕ) (xs : List A) → n < m → nth n (take m xs) ≡ nth n xs
  nth-take n zero xs h = absurd (omega (arith, h))
  nth-take n (suc m) [] h = refl
  nth-take zero (suc m) (x ∷ xs) h = refl
  nth-take (suc n) (suc m) (x ∷ xs) h = nth-take n m xs (omega (arith, h))

  pub length-take : (m : ℕ) (xs : List A) → m ≤ length xs → length (take m xs) ≡ m
  length-take zero xs h = refl
  length-take (suc m) [] h = absurd (omega (arith, h))
  length-take (suc m) (x ∷ xs) h = ap suc (length-take m xs (omega (arith, h)))

  -- Two lists that agree on a prefix agree on a shorter one.
  pub take_shorter :
      (j m : ℕ) (xs ys : List A) → j ≤ m → take m xs ≡ take m ys → take j xs ≡ take j ys
  take_shorter j m xs ys h e = sym (take-take j m xs h) ∙ ap (take j) e ∙ take-take j m ys h

module _ {F : Type 0} ⦃f : Float F⦄ where
  take-labels_of :
      (j : ℕ) (t : F) (ps qs : List F)
      → take j (labels_of t ps qs) ≡ labels_of t (take j ps) (take j qs)
  take-labels_of zero t ps qs = refl
  take-labels_of (suc j) t [] qs = refl
  take-labels_of (suc j) t (p ∷ ps) [] = refl
  take-labels_of (suc j) t (p ∷ ps) (q ∷ qs) =
      ap (λ l. some (label_of t (forward_return p q)) ∷ l) (take-labels_of j t ps qs)

  length-labels_of :
      (t : F) (ps qs : List F) → length ps ≡ length qs → length (labels_of t ps qs) ≡ length ps
  length-labels_of t [] qs h = refl
  length-labels_of t (p ∷ ps) [] h = absurd (omega (arith, h))
  length-labels_of t (p ∷ ps) (q ∷ qs) h = ap suc (length-labels_of t ps qs (omega (arith, h)))

  -- The labels that are realised depend on the closes up to then.
  take-labels :
      (g : LabelGenerator F) (j : ℕ) (closes : List F)
      → j + g.horizon ≤ length closes
      → take j (labels g closes)
        ≡ labels_of g.threshold (take j closes) (take j (drop g.horizon closes))
  unfolding labels
  take-labels g j closes h =
      let n = length closes in
      let ps = take (n - g.horizon) closes in
      let qs = drop g.horizon closes in
      elim (Bool-cases (leb n g.horizon)) [
        | inl short ↦ let none_left : j ≡ 0 = ground (arith, short, h) in rw (short, none_left) refl
        | inr long ↦
            let many = length-take (n - g.horizon) closes (omega arith) in
            let same : length ps ≡ length qs = omega (arith, many, length-drop g.horizon closes) in
            let fits : j ≤ length (labels_of g.threshold ps qs) =
              omega (arith, length-labels_of g.threshold ps qs same, many, h) in
            let shorter = take-take j (n - g.horizon) closes (omega (arith, h)) in
            rw long (
              take-append j (labels_of g.threshold ps qs) _ fits
              ∙ take-labels_of j g.threshold ps qs
              ∙ ap (λ l. labels_of g.threshold l (take j qs)) shorter)
      ]

  -- Closes that agree up to a bar have the same labels up to the horizon before it.
  pub take-labels_past :
      (g : LabelGenerator F) (j m : ℕ) (closes closes' : List F)
      → j + g.horizon ≤ m
      → m ≤ length closes
      → m ≤ length closes'
      → take m closes ≡ take m closes'
      → take j (labels g closes) ≡ take j (labels g closes')
  take-labels_past g j m closes closes' fits long long' same =
      let near = take_shorter j m closes closes' (omega (arith, fits)) same in
      let far : take j (drop g.horizon closes) ≡ take j (drop g.horizon closes') =
        take-drop j g.horizon closes
        ∙ ap (drop g.horizon)
            (take_shorter (g.horizon + j) m closes closes' (omega (arith, fits)) same)
        ∙ sym (take-drop j g.horizon closes') in
      take-labels g j closes (omega (arith, fits, long))
      ∙ ap (λ l. labels_of g.threshold l (take j (drop g.horizon closes))) near
      ∙ ap (labels_of g.threshold (take j closes')) far
      ∙ sym (take-labels g j closes' (omega (arith, fits, long')))
