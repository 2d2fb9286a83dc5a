-- ===== src/Cli/First.antt =====
-- Loops that return the first element that passes a test.
use canary_gate.Prelude.{
  ◌≡◌, refl, sym, Bool, true, false, Option, none, some, List, [], ◌∷◌, ◌⊎◌, inl, inr, Bool-cases,
  some≢none, some_inj, if◌then◌else◌,
}

module _ {A : Type 0} (t : A → Bool) where
  unfoldable pub first : List A → Option A
  first [] = none
  first (x ∷ xs) = let rest = first xs in if t x then some x else rest

  -- `x` is in the list, passes the test, and what stands before it does not.
  abbrev pub First : A → List A → Type 0
  First x [] = ⊥
  First x (y ∷ ys) = ((y ≡ x) × (t y ≡ true)) ⊎ ((t y ≡ false) × First x ys)

  pub first-First : (x : A) (xs : List A) → (first xs ≡ some x) → First x xs
  unfolding first
  first-First x [] e = absurd (some≢none (sym e))
  first-First x (y ∷ ys) e = elim (Bool-cases (t y)) [
    | inl passes ↦ inl (some_inj (rw passes at e), passes)
    | inr fails ↦ inr (fails, first-First x ys (rw fails at e))
  ]

  pub first_found : (x : A) (xs : List A) → First x xs → first xs ≡ some x
  unfolding first
  first_found x [] f = absurd f
  first_found x (y ∷ ys) (inl (same, passes)) = rw (passes, same) refl
  first_found x (y ∷ ys) (inr (fails, later)) = rw fails (first_found x ys later)
