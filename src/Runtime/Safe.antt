-- ===== src/Runtime/Safe.antt =====
-- Rules for what holds of the state after an action, whether it ends or panics.
use canary_gate.Prelude.{◌≡◌, refl, ◌⊎◌, inl, inr}
use canary_gate.Runtime.Exec.{Exec, Outcome, done, panic, Panic}

-- After a run the state satisfies `I`, and where the run is done its value and its state satisfy `Q`.
abbrev pub Safe : {S A : Type 0} → (S → Type 0) → (A → S → Type 0) → Outcome A × S → Type 0
Safe I Q (done a, t) = I t × Q a t
Safe I Q (panic p, t) = I t

abbrev pub Any : {A S : Type 0} → A → S → Type 0
Any a t = Unit {0}

module _ {S A : Type 0} (I : S → Type 0) where
  -- Every run from a state that satisfies `I` ends in one, also where it panics.
  abbrev pub Keeps : (A → S → Type 0) → Exec S A → Type 0
  Keeps Q m = (s : S) → I s → Safe I Q (m s)

  pub Safe-state : (Q : A → S → Type 0) (x : Outcome A × S) → Safe I Q x → I x.1
  Safe-state Q (done a, t) safe = safe.0
  Safe-state Q (panic p, t) safe = safe

  Safe-cases :
      (Q : A → S → Type 0) (x : Outcome A × S)
      → Safe I Q x
      → ((a : A) × (t : S) × (x ≡ (done a, t)) × I t × Q a t)
        ⊎ ((p : Panic) × (t : S) × (x ≡ (panic p, t)) × I t)
  Safe-cases Q (done a, t) safe = inl (a, t, refl, safe.0, safe.1)
  Safe-cases Q (panic p, t) safe = inr (p, t, refl, safe)

  -- An action that keeps `I` is done, or it panics.
  pub Keeps-cases :
      (Q : A → S → Type 0) (m : Exec S A) (s : S)
      → Keeps Q m
      → I s
      → ((a : A) × (t : S) × (m s ≡ (done a, t)) × I t × Q a t)
        ⊎ ((p : Panic) × (t : S) × (m s ≡ (panic p, t)) × I t)
  Keeps-cases Q m s keeps i = Safe-cases Q (m s) (keeps s i)
