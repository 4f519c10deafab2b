-- ===== src/Learning/Versions.antt =====
-- agents/technical_analysis/ml/model_registry.py: the files of one symbol and timeframe. A file is known
-- by its version; what is in a file of metrics or features is left out.
use multi_agent_trading_syst.Prelude.{
  ℕ, zero, suc, ◌+◌, Option, none, some, List, [], ◌∷◌, ltb, if◌then◌else◌,
}
use multi_agent_trading_syst.Prelude.Dict.{Dict, get, put}

-- The model files in the order of the directory, the versions that have sidecars, and what the pointer
-- file names.
pub record ModelFiles (M : Type 0) : Type 0 where
  pub models : Dict M
  pub metrics : List ℕ
  pub features : List ℕ
  pub latest_pointer : Option ℕ

module _ {M : Type 0} where
  -- The highest version so far, or a later one.
  abbrev pub max_version : ℕ → Dict M → ℕ
  max_version best [] = best
  max_version best (e ∷ d) = max_version (if ltb best e.0 then e.0 else best) d

  -- `_next_version`
  unfoldable pub next_version : ModelFiles M → ℕ
  next_version s = max_version 0 s.models + 1

  -- The scan of `get_latest_path`: the first file of the highest version.
  abbrev pub best_of : Option ℕ → Dict M → Option ℕ
  best_of best [] = best
  best_of none (e ∷ d) = best_of (some e.0) d
  best_of (some v) (e ∷ d) = best_of (some (if ltb v e.0 then e.0 else v)) d

  -- The file that the pointer names, if it is there, or the best.
  abbrev pub pointed : ℕ → Option M → Option ℕ → Option ℕ
  pointed v none best = best
  pointed v (some m) best = some v

  abbrev pub latest_or_best : Option ℕ → ModelFiles M → Option ℕ
  latest_or_best none s = best_of none s.models
  latest_or_best (some v) s = pointed v (get v s.models) (best_of none s.models)

  -- `get_latest_path`
  unfoldable pub get_latest_path : ModelFiles M → Option ℕ
  get_latest_path s = latest_or_best s.latest_pointer s

  -- The writes of `save_model`, of which the first `done` happen: the model, its metrics, its features,
  -- and the pointer.
  unfoldable pub written : ℕ → ℕ → M → ModelFiles M → ModelFiles M
  written zero version model s = s
  written (suc zero) version model s = record s { models = put version model s.models }
  written (suc (suc zero)) version model s = record s {
    models = put version model s.models;
    metrics = version ∷ s.metrics;
  }
  written (suc (suc (suc zero))) version model s = record s {
    models = put version model s.models;
    metrics = version ∷ s.metrics;
    features = version ∷ s.features;
  }
  written (suc (suc (suc (suc n)))) version model s = record {
    models = put version model s.models;
    metrics = version ∷ s.metrics;
    features = version ∷ s.features;
    latest_pointer = some version;
  }

  -- `save_model`, up to a number of writes.
  unfoldable pub save_model : ℕ → M → ModelFiles M → ModelFiles M
  unfolding written next_version
  save_model done model s = written done (next_version s) model s
