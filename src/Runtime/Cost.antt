-- ===== src/Runtime/Cost.antt =====
-- Rules for how much an action raises a number that the state has, such as that of the requests so far.
use canary_gate.Prelude.{ℕ, ◌+◌, ◌≤◌, ◌≡◌, refl, subst, ◌⊎◌, inl, inr}
use canary_gate.Runtime.Exec.{Exec, Outcome, done, panic, Panic}

module _ {S A : Type 0} (asked : S → ℕ) where
  -- Every run raises the number by `c` at most, also where it panics.
  abbrev pub Costs : ℕ → Exec S A → Type 0
  Costs c m = (s : S) → asked (m s).1 ≤ c + asked s

  Outcome-cases :
      (x : Outcome A × S)
      → ((a : A) × (t : S) × (x ≡ (done a, t))) ⊎ ((p : Panic) × (t : S) × (x ≡ (panic p, t)))
  Outcome-cases (done a, t) = inl (a, t, refl)
  Outcome-cases (panic p, t) = inr (p, t, refl)

  -- An action is done, or it panics, and costs no more than it can.
  pub Costs-cases :
      (c : ℕ) (m : Exec S A) (s : S)
      → Costs c m
      → ((a : A) × (t : S) × (m s ≡ (done a, t)) × (asked t ≤ c + asked s))
        ⊎ ((p : Panic) × (t : S) × (m s ≡ (panic p, t)) × (asked t ≤ c + asked s))
  Costs-cases c m s costs = elim (Outcome-cases (m s)) [
    | inl (a, t, e) ↦ inl (a, t, e, subst (λ x. asked x.1 ≤ c + asked s) e (costs s))
    | inr (p, t, e) ↦ inr (p, t, e, subst (λ x. asked x.1 ≤ c + asked s) e (costs s))
  ]
