-- ===== src/Prelude/Deque.antt =====
-- `collections.deque(maxlen=n)` as a list with the newest element at the end, and lists in ascending
-- order of a key.
use Prim.Native.Nat.{ℕ, zero, suc, ◌-◌, ◌≤◌, ◌<◌}
use mathlib.Core.Path.{◌≡◌, refl, ap, ◌∙◌, sym}
use mathlib.Core.Logic.{inl, inr}
use mathlib.Core.Option.{Option, none, some}
use mathlib.Core.List.{List, [], ◌∷◌, ◌++◌}
use native.Mathlib.Omega.{arith}
use multi_agent_trading_syst.Prelude.Tests.{ltb, if◌then◌else◌, Bool-cases, ltb→lt}
use multi_agent_trading_syst.Prelude.Lists.{length, length-append, tail}

module _ {ℓ} {A : Type ℓ} where
  -- `append`: past the limit the oldest element goes.
  unfoldable pub push : ℕ → A → List A → List A
  push n x xs = let more = xs ++ (x ∷ []) in if ltb n (length more) then tail more else more

  -- `xs[-1]`
  abbrev pub last : List A → Option A
  last [] = none
  last (x ∷ []) = some x
  last (_ ∷ y ∷ ys) = last (y ∷ ys)

  abbrev pub drop : ℕ → List A → List A
  drop zero xs = xs
  drop (suc n) [] = []
  drop (suc n) (_ ∷ xs) = drop n xs

  -- `xs[-n:]` for a positive n: the last n elements, or all of them.
  abbrev pub take_last : ℕ → List A → List A
  take_last n xs = drop (length xs - n) xs

  length-tail : (xs : List A) → length (tail xs) ≡ length xs - 1
  length-tail [] = refl
  length-tail (x ∷ xs) = omega arith

  pub length-push : (n : ℕ) (x : A) (xs : List A) → length xs ≤ n → length (push n x xs) ≤ n
  unfolding push
  length-push n x xs h =
      let more = xs ++ (x ∷ []) in ground (arith, length-tail more, length-append xs (x ∷ []))

  pub last-append : (x : A) (xs : List A) → last (xs ++ (x ∷ [])) ≡ some x
  last-append x [] = refl
  last-append x (_ ∷ []) = refl
  last-append x (_ ∷ y ∷ ys) = last-append x (y ∷ ys)

  tail-drop : (n : ℕ) (xs : List A) → tail (drop n xs) ≡ drop (suc n) xs
  tail-drop zero [] = refl
  tail-drop zero (x ∷ xs) = refl
  tail-drop (suc n) [] = refl
  tail-drop (suc n) (x ∷ xs) = tail-drop n xs

  drop-append : (n : ℕ) (xs ys : List A) → n ≤ length xs → drop n (xs ++ ys) ≡ drop n xs ++ ys
  drop-append zero xs ys h = refl
  drop-append (suc n) [] ys h = absurd (omega (arith, h))
  drop-append (suc n) (x ∷ xs) ys h = drop-append n xs ys (omega (arith, h))

  pub length-drop : (n : ℕ) (xs : List A) → length (drop n xs) ≡ length xs - n
  length-drop zero xs = omega arith
  length-drop (suc n) [] = omega arith
  length-drop (suc n) (x ∷ xs) = omega (arith, length-drop n xs)

  pub length-take_last : (n : ℕ) (xs : List A) → length (take_last n xs) ≤ n
  length-take_last n xs = omega (arith, length-drop (length xs - n) xs)

  pub last-drop : (n : ℕ) (xs : List A) → n < length xs → last (drop n xs) ≡ last xs
  last-drop zero xs h = refl
  last-drop (suc n) [] h = absurd (omega (arith, h))
  last-drop (suc n) (x ∷ []) h = absurd (omega (arith, h))
  last-drop (suc n) (x ∷ y ∷ ys) h = last-drop n (y ∷ ys) (omega (arith, h))

  -- Pushing on the last n elements of a sequence gives the last n of the longer one.
  pub push-take_last :
      (n : ℕ) (x : A) (xs : List A) → push n x (take_last n xs) ≡ take_last n (xs ++ (x ∷ []))
  unfolding push
  push-take_last n x xs =
      let m = length xs - n in
      let more = drop m xs ++ (x ∷ []) in
      let joined : drop m (xs ++ (x ∷ [])) ≡ more = drop-append m xs (x ∷ []) (omega arith) in
      let long = length-append xs (x ∷ []) in
      let short = length-append (drop m xs) (x ∷ []) in
      let kept = length-drop m xs in
      elim (Bool-cases (ltb n (length more))) [
        | inl over ↦
            let over' = ltb→lt n (length more) over in
            let at_m : length (xs ++ (x ∷ [])) - n ≡ suc m =
              omega (arith, over', long, short, kept) in
            rw (over, at_m) (ap tail (sym joined) ∙ tail-drop m (xs ++ (x ∷ [])))
        | inr under ↦
            let at_m : length (xs ++ (x ∷ [])) - n ≡ m = ground (arith, under, long, short, kept) in
            rw (under, at_m) (sym joined)
      ]

module _ {ℓ} {A : Type ℓ} (key : A → ℕ) where
  -- The head of a list, if any, has a larger key.
  abbrev pub Below : A → List A → Type 0
  Below x [] = Unit
  Below x (y ∷ ys) = key x < key y

  -- Keys strictly increase along the list.
  abbrev pub Ascends : List A → Type 0
  Ascends [] = Unit
  Ascends (x ∷ xs) = Below x xs × Ascends xs

  -- An element whose key exceeds that of the last element, if any.
  abbrev pub Follows : Option A → A → Type 0
  Follows none x = Unit
  Follows (some y) x = key y < key x

  pub Ascends-append :
      (x : A) (xs : List A) → Ascends xs → Follows (last xs) x → Ascends (xs ++ (x ∷ []))
  Ascends-append x [] h k = (tt, tt)
  Ascends-append x (y ∷ []) h k = (k, (tt, tt))
  Ascends-append x (y ∷ z ∷ zs) (below, rest) k = (below, Ascends-append x (z ∷ zs) rest k)

  pub Ascends-tail : (xs : List A) → Ascends xs → Ascends (tail xs)
  Ascends-tail [] h = tt
  Ascends-tail (x ∷ xs) h = h.1

  pub Ascends-push :
      (n : ℕ) (x : A) (xs : List A) → Ascends xs → Follows (last xs) x → Ascends (push n x xs)
  unfolding push
  Ascends-push n x xs h k =
      let more = xs ++ (x ∷ []) in
      let up = Ascends-append x xs h k in
      elim (Bool-cases (ltb n (length more))) [
        | inl over ↦ rw over (Ascends-tail more up)
        | inr under ↦ rw under up
      ]
