-- ===== src/Control/Guarded.antt =====
-- Who may use the control plane (api/routers/control.py).
use multi_agent_trading_syst.Prelude.{
  ℕ, ◌≡◌, refl, ap, ◌∙◌, arith, true, false, ◌==◌, Option, none, some, [], ◌∷◌, Bool-cases, inl,
  inr, ◌⊎◌,
}
use multi_agent_trading_syst.Control.Api.{
  Text, Request, Bus, require_control_key, refusal, same_text, endpoint, allowed, handle,
}

same_text-eq : (xs ys : Text) → same_text xs ys ≡ true → xs ≡ ys
same_text-eq [] [] h = refl
same_text-eq [] (y ∷ ys) h = absurd (ground (arith, h))
same_text-eq (x ∷ xs) [] h = absurd (ground (arith, h))
same_text-eq (x ∷ xs) (y ∷ ys) h = elim (Bool-cases (x == y)) [
  | inl same ↦
      let rest : same_text xs ys ≡ true = rw same at h in
      let head : x ≡ y = ground (arith, same) in
      ap (λ z. z ∷ xs) head ∙ ap (λ l. y ∷ l) (same_text-eq xs ys rest)
  | inr other ↦ let no : false ≡ true = rw other at h in absurd (ground (arith, no))
]

-- A key that is configured, not empty, and given.
abbrev pub IsAuthorised : Option Text → Option Text → Type 0
IsAuthorised (some (k ∷ ks)) (some given) = given ≡ k ∷ ks
IsAuthorised _ _ = ⊥

abbrev pub IsTurnedAway : ℕ → Type 0
IsTurnedAway status = (status ≡ 401) ⊎ (status ≡ 403)

-- Whoever does not give the configured key gets 401 or 403;
check-cases :
    (configured given : Option Text)
    → IsAuthorised configured given
      ⊎ ((status : ℕ) × IsTurnedAway status × (require_control_key configured given ≡ some status))
unfolding require_control_key
check-cases none given = inr (403, inr refl, refl)
check-cases (some []) given = inr (403, inr refl, refl)
check-cases (some (k ∷ ks)) none = inr (401, inl refl, refl)
check-cases (some (k ∷ ks)) (some given) = elim (Bool-cases (same_text given (k ∷ ks))) [
  | inl same ↦ inl (same_text-eq given (k ∷ ks) same)
  | inr other ↦ inr (401, inl refl, rw other refl)
]

-- A request gives the configured key, which is not empty, or it is answered 401 or 403, publishes
-- nothing and leaves the halt key as it was, whatever it asks for and whatever the bus does.
pub handle-IsAuthorised :
    (configured : Option Text) (bus : Bus) (r : Request) (key : Option Text)
    → IsAuthorised configured r.x_api_key
      ⊎ ((status : ℕ) × IsTurnedAway status × (handle configured bus r key ≡ refusal status key))
unfolding handle
handle-IsAuthorised configured bus r key = elim (check-cases configured r.x_api_key) [
  | inl allowed_key ↦ inl allowed_key
  | inr (status, away, e) ↦ inr (status, away, ap (λ c. allowed c (endpoint bus r.body key) key) e)
]
