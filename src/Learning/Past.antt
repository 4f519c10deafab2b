-- ===== src/Learning/Past.antt =====
-- What the walk-forward strategy knows at a bar (backtest/walkforward.py).
use multi_agent_trading_syst.Prelude.{
  ℕ, zero, suc, ◌+◌, ◌-◌, ◌≤◌, ◌<◌, ◌≡◌, refl, sym, ap, ◌∙◌, List, arith, ltb, length, Bool-cases,
  inl, inr,
}
use multi_agent_trading_syst.Prelude.Deque.{drop}
use multi_agent_trading_syst.Prelude.Float.{Float}
use multi_agent_trading_syst.Technical.Series.{take, nth}
use multi_agent_trading_syst.Learning.Labels.{LabelGenerator, labels}
use multi_agent_trading_syst.Learning.Leakage.{take_shorter, take-drop, nth-take, take-labels_past}
use multi_agent_trading_syst.Learning.WalkForward.{
  Classifier, WalkForwardParams, label_generator_of, WalkForwardModel, history, train_set,
  row_for_bar, labelled, maybe_retrain, decide, reached,
}

-- Two markets that agree up to the bar i: in the closes, and in the rows of these bars.
pub record Agrees {R F : Type 0} (start i : ℕ) (rows rows' : List R) (closes closes' : List F)
    : Type 0 where
  pub same_rows : take (i + 1 - start) rows ≡ take (i + 1 - start) rows'
  pub same_closes : take (i + 1) closes ≡ take (i + 1) closes'
  pub long : i < length closes
  pub long' : i < length closes'

module _ {R F : Type 0} where
  Agrees-earlier :
      (start i : ℕ) (rows rows' : List R) (closes closes' : List F)
      → Agrees start (suc i) rows rows' closes closes'
      → Agrees start i rows rows' closes closes'
  Agrees-earlier start i rows rows' closes closes' h = record {
    same_rows =
        take_shorter (i + 1 - start) (suc i + 1 - start) rows rows' (omega arith) h.same_rows;
    same_closes = take_shorter (i + 1) (suc i + 1) closes closes' (omega arith) h.same_closes;
    long = omega (arith, h.long);
    long' = omega (arith, h.long');
  }

module _ {R F : Type 0} ⦃f : Float F⦄ where
  train_set-past :
      (g : LabelGenerator F) (start i : ℕ) (rows rows' : List R) (closes closes' : List F)
      → Agrees start i rows rows' closes closes'
      → train_set g.horizon i (history g start rows closes)
        ≡ train_set g.horizon i (history g start rows' closes')
  unfolding train_set history
  train_set-past g start i rows rows' closes closes' h =
      elim (Bool-cases (ltb i (g.horizon + start))) [
        | inl early ↦ rw early refl
        | inr late ↦
            let r = i - g.horizon - start + 1 in
            let fits : start + r + g.horizon ≤ i + 1 = ground (arith, late) in
            let same_rows =
              take_shorter r (i + 1 - start) rows rows' (ground (arith, late)) h.same_rows in
            let same_labels =
              take-labels_past g (start + r) (i + 1) closes closes' fits (omega (arith, h.long))
                (omega (arith, h.long')) h.same_closes in
            let same_window : take r (drop start (labels g closes))
                ≡ take r (drop start (labels g closes')) =
              take-drop r start (labels g closes)
              ∙ ap (drop start) same_labels
              ∙ sym (take-drop r start (labels g closes')) in
            rw late (
              ap (λ l. labelled l (take r (drop start (labels g closes)))) same_rows
              ∙ ap (labelled (take r rows')) same_window)
      ]

  row_for_bar-past :
      (g : LabelGenerator F) (start i : ℕ) (rows rows' : List R) (closes closes' : List F)
      → Agrees start i rows rows' closes closes'
      → row_for_bar i (history g start rows closes) ≡ row_for_bar i (history g start rows' closes')
  unfolding row_for_bar history
  row_for_bar-past g start i rows rows' closes closes' h = elim (Bool-cases (ltb i start)) [
    | inl early ↦ rw early refl
    | inr late ↦
        let m = i + 1 - start in
        let inside : i - start < m = ground (arith, late) in
        rw late (
          sym (nth-take (i - start) m rows inside)
          ∙ ap (nth (i - start)) h.same_rows
          ∙ nth-take (i - start) m rows' inside)
  ]

module _ {R M F : Type 0} ⦃f : Float F⦄ (k : Classifier R M F) (wf : WalkForwardParams F) where
  maybe_retrain-past :
      (start i : ℕ) (rows rows' : List R) (closes closes' : List F) (s : WalkForwardModel M)
      → Agrees start i rows rows' closes closes'
      → maybe_retrain k wf (history (label_generator_of wf) start rows closes) i s
        ≡ maybe_retrain k wf (history (label_generator_of wf) start rows' closes') i s
  unfolding maybe_retrain history
  maybe_retrain-past start i rows rows' closes closes' s h =
      rw (train_set-past (label_generator_of wf) start i rows rows' closes closes' h) refl

  decide-past :
      (start i : ℕ) (rows rows' : List R) (closes closes' : List F) (s : WalkForwardModel M)
      → Agrees start i rows rows' closes closes'
      → decide k wf (history (label_generator_of wf) start rows closes) i s
        ≡ decide k wf (history (label_generator_of wf) start rows' closes') i s
  unfolding decide
  decide-past start i rows rows' closes closes' s h =
      rw
        (
          maybe_retrain-past start i rows rows' closes closes' s h,
          row_for_bar-past (label_generator_of wf) start i rows rows' closes closes' h,
        )
        refl

  -- Before a bar, the decisions up to then leave the same model.
  reached-past :
      (start i : ℕ) (rows rows' : List R) (closes closes' : List F)
      → Agrees start i rows rows' closes closes'
      → reached k wf (history (label_generator_of wf) start rows closes) i
        ≡ reached k wf (history (label_generator_of wf) start rows' closes') i
  unfolding reached
  reached-past start zero rows rows' closes closes' h = refl
  reached-past start (suc i) rows rows' closes closes' h =
      let earlier = Agrees-earlier start i rows rows' closes closes' h in
      let same = reached-past start i rows rows' closes closes' earlier in
      let s = reached k wf (history (label_generator_of wf) start rows' closes') i in
      ap (λ x. (decide k wf (history (label_generator_of wf) start rows closes) i x).1) same
      ∙ ap (λ x. x.1) (decide-past start i rows rows' closes closes' s earlier)

  pub decision-past :
      (start i : ℕ) (rows rows' : List R) (closes closes' : List F)
      → Agrees start i rows rows' closes closes'
      → (let h = history (label_generator_of wf) start rows closes in
          (decide k wf h i (reached k wf h i)).0)
        ≡ (let h = history (label_generator_of wf) start rows' closes' in
            (decide k wf h i (reached k wf h i)).0)
  decision-past start i rows rows' closes closes' h =
      let same = reached-past start i rows rows' closes closes' h in
      let s = reached k wf (history (label_generator_of wf) start rows' closes') i in
      ap (λ x. (decide k wf (history (label_generator_of wf) start rows closes) i x).0) same
      ∙ ap (λ x. x.0) (decide-past start i rows rows' closes closes' s h)
