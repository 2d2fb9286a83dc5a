-- ===== src/Runtime/Exec.antt =====
-- Go code that changes a state and may panic. What was written before a panic stays written, so the
-- state comes back beside the panic too. Errors that Go returns as values are part of the value.

-- The run-time panics that the code can meet.
pub data Panic : Type 0 where
  type_assertion nil_map_write nil_pointer unimplemented failed_must : Panic

pub data Outcome {ℓ} (A : Type ℓ) : Type ℓ where
  done : A → Outcome A
  panic : Panic → Outcome A

abbrev pub Exec : Type 0 → Type 0 → Type 0
Exec S A = S → Outcome A × S

module _ {S A : Type 0} where
  abbrev pub pure : A → Exec S A
  pure a s = (done a, s)

  abbrev pub raise : Panic → Exec S A
  raise p s = (panic p, s)

  abbrev pub gets : (S → A) → Exec S A
  gets f s = (done (f s), s)

abbrev pub modify : {S : Type 0} → (S → S) → Exec S (Unit {0})
modify f s = (done tt, f s)

module _ {S A B : Type 0} where
  abbrev pub continue : Outcome A × S → (A → Exec S B) → Outcome B × S
  continue (done a, s) f = f a s
  continue (panic p, s) f = (panic p, s)

  infixl 10 ◌>>=◌ ◌>>◌
  abbrev pub ◌>>=◌ : Exec S A → (A → Exec S B) → Exec S B
  ◌>>=◌ m f s = continue (m s) f

  abbrev pub ◌>>◌ : Exec S A → Exec S B → Exec S B
  m >> n = m >>= λ _. n
