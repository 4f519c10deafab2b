-- ===== src/Learning/Saved.antt =====
-- A save into the registry of models (agents/technical_analysis/ml/model_registry.py).
use multi_agent_trading_syst.Prelude.{
  ℕ, zero, suc, ◌+◌, ◌≤◌, ◌<◌, ◌≡◌, ◌≢◌, refl, ap, ◌∙◌, arith, false, ltb, none, some, [], ◌∷◌,
  if◌then◌else◌,
}
use multi_agent_trading_syst.Prelude.Dict.{Dict, get, put, get-put_self, get-put_ne}
use multi_agent_trading_syst.Learning.Versions.{
  ModelFiles, max_version, next_version, get_latest_path, save_model, written,
}

module _ {M : Type 0} where
  max_version-above : (b : ℕ) (d : Dict M) → b ≤ max_version b d
  max_version-above b [] = omega arith
  max_version-above b (e ∷ d) = ground (arith, max_version-above (if ltb b e.0 then e.0 else b) d)

  get-above : (b v : ℕ) (d : Dict M) → max_version b d < v → get v d ≡ none
  get-above b v [] h = refl
  get-above b v (e ∷ d) h =
      let b' = if ltb b e.0 then e.0 else b in
      ground (arith, max_version-above b' d, get-above b' v d h)

  -- No file has the next version yet.
  next_version-new : (s : ModelFiles M) → get (next_version s) s.models ≡ none
  unfolding next_version
  next_version-new s = get-above 0 (max_version 0 s.models + 1) s.models (omega arith)

  -- What a reader finds after a write of the next version: the pointer, and the file it names.
  abbrev pub Finds : ModelFiles M → ℕ → M → Type 0
  Finds s v model = (get_latest_path s ≡ some v) × (get v s.models ≡ some model)

  finds :
      (s : ModelFiles M) (v : ℕ) (model : M)
      → s.latest_pointer ≡ some v
      → get v s.models ≡ some model
      → Finds s v model
  unfolding get_latest_path
  finds s v model p e = (rw (p, e) refl, e)

  kept :
      (s : ModelFiles M) (v : ℕ) (old model : M)
      → get v s.models ≡ some old
      → get v (put (next_version s) model s.models) ≡ some old
  kept s v old model e =
      let differs : v ≢ next_version s = λ same.
        let none_there : get v s.models ≡ none =
          ap (λ j. get j s.models) same ∙ next_version-new s in
        ground (arith, e, none_there) in
      get-put_ne v (next_version s) model s.models differs ∙ e

  -- While the pointer names a model that is there, a save that stops before its last write leaves that
  -- model the latest, and one that completes makes the new model the latest, under a version that no file
  -- had. Either way the old model stays in its file.
  pub save_model-IsAtomic :
      (s : ModelFiles M) (v : ℕ) (old model : M) (done : ℕ)
      → s.latest_pointer ≡ some v
      → get v s.models ≡ some old
      → (get (next_version s) s.models ≡ none)
        × (get v (save_model done model s).models ≡ some old)
        × Finds
            (save_model done model s)
            (if ltb done 4 then v else next_version s)
            (if ltb done 4 then old else model)
  unfolding save_model written
  save_model-IsAtomic s v old model zero p e = (next_version-new s, e, finds s v old p e)
  save_model-IsAtomic s v old model (suc zero) p e =
      let k = kept s v old model e in (next_version-new s, k, finds _ v old p k)
  save_model-IsAtomic s v old model (suc (suc zero)) p e =
      let k = kept s v old model e in (next_version-new s, k, finds _ v old p k)
  save_model-IsAtomic s v old model (suc (suc (suc zero))) p e =
      let k = kept s v old model e in (next_version-new s, k, finds _ v old p k)
  save_model-IsAtomic s v old model (suc (suc (suc (suc n)))) p e =
      let k = kept s v old model e in
      let all : ltb (suc (suc (suc (suc n)))) 4 ≡ false = ground arith in
      rw all (
        next_version-new s,
        k,
        finds _ (next_version s) model refl (get-put_self (next_version s) model s.models),
      )
