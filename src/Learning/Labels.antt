-- ===== src/Learning/Labels.antt =====
-- agents/technical_analysis/ml/label_generator.py
use multi_agent_trading_syst.Prelude.{
  ℕ, suc, ◌-◌, Option, none, some, List, [], ◌∷◌, ◌++◌, leb, ltb, if◌then◌else◌, length,
}
use multi_agent_trading_syst.Prelude.Deque.{drop}
use multi_agent_trading_syst.Prelude.Float.{Float, nought}
use multi_agent_trading_syst.Technical.Series.{take, replicate}

-- -1, 0 and +1; NaN is `none`.
pub data Label : Type 0 where
  sell_label hold_label buy_label : Label

pub record LabelGenerator (F : Type 0) : Type 0 where
  pub horizon : ℕ
  pub threshold : F

module _ {F : Type 0} ⦃f : Float F⦄ where
  -- `LabelGenerator(horizon, threshold)`: `none` is its ValueError.
  unfoldable pub new_label_generator : ℕ → F → Option (LabelGenerator F)
  new_label_generator horizon threshold =
      if ltb horizon 1
      then none
      else if f.le threshold nought
      then none
      else some (record { horizon = horizon; threshold = threshold })

  abbrev pub forward_return : F → F → F
  forward_return present future =
      if f.lt nought present then f.div (f.sub future present) present else nought

  abbrev pub label_of : F → F → Label
  label_of threshold r =
      if f.lt r (f.neg threshold)
      then sell_label
      else if f.lt threshold r
      then buy_label
      else hold_label

  abbrev pub labels_of : F → List F → List F → List (Option Label)
  labels_of threshold (p ∷ ps) (q ∷ qs) =
      some (label_of threshold (forward_return p q)) ∷ labels_of threshold ps qs
  labels_of threshold _ _ = []

  -- `generate`
  unfoldable pub labels : LabelGenerator F → List F → List (Option Label)
  labels g closes =
      let n = length closes in
      if leb n g.horizon
      then replicate n none
      else labels_of g.threshold (take (n - g.horizon) closes) (drop g.horizon closes)
        ++ replicate g.horizon none

-- `label_distribution`
pub record Distribution : Type 0 where
  pub buy : ℕ
  pub hold : ℕ
  pub sell : ℕ
  pub total : ℕ

abbrev pub count_label : Option Label → Distribution → Distribution
count_label none d = d
count_label (some sell_label) d = record d { sell = suc d.sell; total = suc d.total }
count_label (some hold_label) d = record d { hold = suc d.hold; total = suc d.total }
count_label (some buy_label) d = record d { buy = suc d.buy; total = suc d.total }

unfoldable pub label_distribution : List (Option Label) → Distribution
label_distribution [] = record { buy = 0; hold = 0; sell = 0; total = 0 }
label_distribution (l ∷ ls) = count_label l (label_distribution ls)
