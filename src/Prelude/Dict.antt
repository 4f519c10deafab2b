-- ===== src/Prelude/Dict.antt =====
-- A Python dict in insertion order, with keys that the program only compares.
use Prim.Native.Nat.{ℕ, suc, ◌≤◌}
use mathlib.Core.Path.{◌≡◌, refl}
use mathlib.Core.Logic.{◌≢◌}
use mathlib.Core.Bool.{Bool}
use mathlib.Core.Option.{Option, none, some}
use mathlib.Core.List.{List, [], ◌∷◌}
use native.Mathlib.Omega.{arith}
use multi_agent_trading_syst.Prelude.Tests.{◌==◌, if◌then◌else◌, is_some}
use multi_agent_trading_syst.Prelude.Lists.{length}

abbrev pub Dict {ℓ} : Type ℓ → Type ℓ
Dict V = List (ℕ × V)

module _ {ℓ} {V : Type ℓ} where
  -- `d.get(k)`
  abbrev pub get : ℕ → Dict V → Option V
  get k [] = none
  get k (e ∷ d) = if k == e.0 then some e.1 else get k d

  -- `k in d`
  abbrev pub has_key : ℕ → Dict V → Bool
  has_key k d = is_some (get k d)

  -- `d[k] = v`: an old key keeps its place, a new one goes to the end.
  abbrev pub put : ℕ → V → Dict V → Dict V
  put k v [] = (k, v) ∷ []
  put k v (e ∷ d) = if k == e.0 then (k, v) ∷ d else e ∷ put k v d

  -- `d.pop(k, None)`, the dict that is left.
  abbrev pub remove : ℕ → Dict V → Dict V
  remove k [] = []
  remove k (e ∷ d) = if k == e.0 then d else e ∷ remove k d

module _ {V : Type 0} where
  -- No key is listed twice, which every Python dict has.
  abbrev pub IsDict : Dict V → Type 0
  IsDict [] = Unit
  IsDict (e ∷ d) = (get e.0 d ≡ none) × IsDict d

  pub get-put_self : (k : ℕ) (v : V) (d : Dict V) → get k (put k v d) ≡ some v
  get-put_self k v [] = ground arith
  get-put_self k v (e ∷ d) = ground (arith, get-put_self k v d)

  pub get-put_ne : (j k : ℕ) (v : V) (d : Dict V) → j ≢ k → get j (put k v d) ≡ get j d
  get-put_ne j k v [] h = ground arith
  get-put_ne j k v (e ∷ d) h = ground (arith, get-put_ne j k v d h)

  pub get-put :
      (j k : ℕ) (v : V) (d : Dict V) → get j (put k v d) ≡ (if j == k then some v else get j d)
  get-put j k v [] = ground arith
  get-put j k v (e ∷ d) = ground (arith, get-put j k v d)

  pub get-remove_ne : (j k : ℕ) (d : Dict V) → j ≢ k → get j (remove k d) ≡ get j d
  get-remove_ne j k [] h = refl
  get-remove_ne j k (e ∷ d) h = ground (arith, get-remove_ne j k d h)

  pub get-remove_self : (k : ℕ) (d : Dict V) → IsDict d → get k (remove k d) ≡ none
  get-remove_self k [] h = refl
  get-remove_self k (e ∷ d) h = ground (arith, get-remove_self k d h.1)

  pub put-IsDict : (k : ℕ) (v : V) (d : Dict V) → IsDict d → IsDict (put k v d)
  put-IsDict k v [] h = (refl, tt)
  put-IsDict k v (e ∷ d) h = ground (arith, put-IsDict k v d h.1, get-put_ne e.0 k v d)

  pub remove-IsDict : (k : ℕ) (d : Dict V) → IsDict d → IsDict (remove k d)
  remove-IsDict k [] h = tt
  remove-IsDict k (e ∷ d) h = ground (arith, remove-IsDict k d h.1, get-remove_ne e.0 k d)

  pub length-put_new :
      (k : ℕ) (v : V) (d : Dict V) → get k d ≡ none → length (put k v d) ≡ suc (length d)
  length-put_new k v [] h = refl
  length-put_new k v (e ∷ d) h = ground (arith, length-put_new k v d)

  pub length-put_old :
      (k : ℕ) (v w : V) (d : Dict V) → get k d ≡ some w → length (put k v d) ≡ length d
  length-put_old k v w [] h = cc
  length-put_old k v w (e ∷ d) h = ground (arith, length-put_old k v w d)

  pub length-remove-le : (k : ℕ) (d : Dict V) → length (remove k d) ≤ length d
  length-remove-le k [] = omega arith
  length-remove-le k (e ∷ d) = ground (arith, length-remove-le k d)

  -- Writing a new key and taking it out again gives the old dict.
  pub remove-put_new : (k : ℕ) (v : V) (d : Dict V) → get k d ≡ none → remove k (put k v d) ≡ d
  remove-put_new k v [] h = ground arith
  remove-put_new k v (e ∷ d) h = ground (arith, remove-put_new k v d)

  -- The second of two writes to a key stands.
  pub put-put : (k : ℕ) (v w : V) (d : Dict V) → put k v (put k w d) ≡ put k v d
  put-put k v w [] = ground arith
  put-put k v w (e ∷ d) = ground (arith, put-put k v w d)

  pub get-remove :
      (j k : ℕ) (d : Dict V) → IsDict d → get j (remove k d) ≡ (if j == k then none else get j d)
  get-remove j k [] h = ground arith
  get-remove j k (e ∷ d) h = ground (arith, get-remove j k d h.1)
