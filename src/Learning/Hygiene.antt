-- ===== src/Learning/Hygiene.antt =====
-- The hygiene passes of agents/technical_analysis/ml/feature_engineer.py: every row is passed through
-- `nan_to_num`, and the matrix once more.
use multi_agent_trading_syst.Prelude.{
  ℕ, zero, suc, ◌≡◌, refl, ap, ◌∙◌, Option, none, some, List, [], ◌∷◌, ltb, if◌then◌else◌, map,
  Bool-cases, inl, inr,
}
use multi_agent_trading_syst.Prelude.Float.{Float, nought}
use multi_agent_trading_syst.Technical.Series.{
  Numpy, Computed, computed, refused, and_then, nth, indexed,
}
use multi_agent_trading_syst.Learning.Indicators.{Maths}
use multi_agent_trading_syst.Learning.Features.{Bars, precomputed}
use multi_agent_trading_syst.Learning.Rows.{
  view, nan_to_num, assembled, row_from_precomputed, rows_from, kept, matrix_row,
}

module _ {F : Type 0} ⦃f : Float F⦄ (np : Numpy F) (m : Maths F) where
  clean_twice :
      (x : F)
      → (let y = if m.is_finite x then x else nought in if m.is_finite y then y else nought)
        ≡ (if m.is_finite x then x else nought)
  clean_twice x = elim (Bool-cases (m.is_finite x)) [
    | inl finite ↦ rw (finite, finite) refl
    | inr lost ↦ elim (Bool-cases (m.is_finite nought)) [
      | inl finite ↦ rw (lost, finite) refl
      | inr lost' ↦ rw (lost, lost') refl
    ]
  ]

  nan_to_num_twice : (xs : List F) → nan_to_num np m (nan_to_num np m xs) ≡ nan_to_num np m xs
  nan_to_num_twice [] = refl
  nan_to_num_twice (x ∷ xs) =
      ap (λ y. y ∷ nan_to_num np m (nan_to_num np m xs)) (clean_twice x)
      ∙ ap (λ ys. (if m.is_finite x then x else nought) ∷ ys) (nan_to_num_twice xs)

  -- A further pass changes nothing.
  abbrev pub IsCleanRow : Computed (Option (List F)) → Type 0
  IsCleanRow (computed (some row)) = nan_to_num np m row ≡ row
  IsCleanRow _ = Unit

  vec-IsCleanRow :
      (c : Computed (List F))
      → IsCleanRow (and_then c (λ vec. computed (some (nan_to_num np m vec))))
  vec-IsCleanRow (computed vec) = nan_to_num_twice vec
  vec-IsCleanRow (refused t) = tt

  with_time-IsCleanRow :
      (t : Computed ℕ) (k : ℕ → Computed (Option (List F)))
      → ((x : ℕ) → IsCleanRow (k x))
      → IsCleanRow (and_then t k)
  with_time-IsCleanRow (computed x) k h = h x
  with_time-IsCleanRow (refused t) k h = tt

  pub row_from_precomputed-IsCleanRow :
      (b : Bars F) (i : ℕ) (t : Option ℕ)
      → IsCleanRow (row_from_precomputed np m i b t (precomputed np m b))
  unfolding row_from_precomputed
  row_from_precomputed-IsCleanRow b i t = elim (Bool-cases (ltb i 59)) [
    | inl early ↦ rw early tt
    | inr late ↦ rw late (vec-IsCleanRow (assembled np m (view i b (precomputed np m b)) t))
  ]

  pub matrix_row-IsCleanRow : (b : Bars F) (i : ℕ) → IsCleanRow (matrix_row np m b i)
  unfolding matrix_row
  matrix_row-IsCleanRow b i =
      with_time-IsCleanRow (indexed (nth i b.timestamps)) _
        (λ t. row_from_precomputed-IsCleanRow b i (some t))

  abbrev again : Computed (List (List F)) → Computed (List (List F))
  again c = and_then c (λ rows. computed (map (nan_to_num np m) rows))

  kept-again :
      (c : Computed (Option (List F))) (d : Computed (List (List F)))
      → IsCleanRow c
      → again d ≡ d
      → again (and_then c (λ row. and_then d (λ rows. computed (kept row rows))))
        ≡ and_then c (λ row. and_then d (λ rows. computed (kept row rows)))
  kept-again (refused t) d h k = refl
  kept-again (computed none) (refused t) h k = refl
  kept-again (computed (some row)) (refused t) h k = refl
  kept-again (computed none) (computed rows) h k = k
  kept-again (computed (some row)) (computed rows) h k =
      ap (λ r. computed (r ∷ map (nan_to_num np m) rows)) h
      ∙ ap (λ d. and_then d (λ rest. computed (row ∷ rest))) k

  -- A second pass over the matrix changes nothing.
  pub rows_from-again :
      (row_at : ℕ → Computed (Option (List F)))
      → ((j : ℕ) → IsCleanRow (row_at j))
      → (n i : ℕ) → again (rows_from row_at n i) ≡ rows_from row_at n i
  unfolding rows_from
  rows_from-again row_at h zero i = refl
  rows_from-again row_at h (suc n) i =
      kept-again (row_at i) (rows_from row_at n (suc i)) (h i) (rows_from-again row_at h n (suc i))
