-- ===== src/Prelude/Cases.antt =====
-- The conditional, and splits on a computed value that keep its equation.
use Prim.Native.Nat.{ℕ, zero, suc, compare, Ordering}
use Prim.Native.String.{String}
use native.Mathlib.Omega.{arith}
use text.Mathlib.Text.{◌==◌}
use text.Mathlib.TextEquality.{eq_iff}
use mathlib.Core.Path.{◌≡◌, refl}
use mathlib.Core.Logic.{◌⊎◌, ◌≢◌, inl, inr}
use mathlib.Core.Bool.{Bool, true, false, ◌&&◌}
use mathlib.Core.List.{List, [], ◌∷◌}
use mathlib.Core.Option.{Option, none, some}

infix 1 if◌then◌else◌
abbrev pub if◌then◌else◌ {ℓ} : {A : Type ℓ} → Bool → A → A → A
if true then x else y = x
if false then x else y = y

pub Bool-cases : (b : Bool) → (b ≡ true) ⊎ (b ≡ false)
Bool-cases true = inl refl
Bool-cases false = inr refl

pub Option-cases {ℓ} : {A : Type ℓ} (o : Option A) → (o ≡ none) ⊎ ((a : A) × (o ≡ some a))
Option-cases none = inl refl
Option-cases (some a) = inr (a, refl)

pub some≢none {ℓ} : {A : Type ℓ} {a : A} → some a ≡ none → ⊥
some≢none e = cc

pub some_inj {ℓ} : {A : Type ℓ} {a b : A} → some a ≡ some b → a ≡ b
some_inj e = cc

pub and_true : (a b : Bool) → (a && b) ≡ true → (a ≡ true) × (b ≡ true)
and_true true true h = (refl, refl)
and_true true false h = (refl, h)
and_true false b h = (h, cc)

pub and_false_right : (a b : Bool) → b ≡ false → (a && b) ≡ false
and_false_right true b h = h
and_false_right false b h = refl

-- For grind: facts on tests of texts and numbers.
pub ruleset text_tests = (arith, eq_iff)

pub eq-false : (s t : String) → s ≢ t → (s == t) ≡ false
eq-false s t h = grind text_tests

pub and_false_left : (a b : Bool) → (a && b) ≡ false → a ≡ true → b ≡ false
and_false_left true b h e = h
and_false_left false b h e = cc

-- `append(xs, x)`
abbrev pub append {ℓ} : {A : Type ℓ} → List A → A → List A
append [] x = x ∷ []
append (y ∷ ys) x = y ∷ append ys x

abbrev pub nat_eq : ℕ → ℕ → Bool
nat_eq a b = elim (compare a b) [ Ordering.eq ↦ true | _ ↦ false ]

pub ne_of_false : (s t : String) → (s == t) ≡ false → s ≢ t
ne_of_false s t h = grind text_tests

abbrev pub get_elem? {ℓ} : {A : Type ℓ} → List A → ℕ → Option A
get_elem? [] i = none
get_elem? (x ∷ xs) zero = some x
get_elem? (x ∷ xs) (suc i) = get_elem? xs i
