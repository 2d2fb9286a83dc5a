-- ===== src/Runtime/Int.antt =====
-- Go's `int`, where it can be negative.
use canary_gate.Prelude.{ℕ, Bool, false, nat_eq}

pub data ℤ : Type 0 where
  pos : ℕ → ℤ
  negsuc : ℕ → ℤ

abbrev pub int_eq : ℤ → ℤ → Bool
int_eq (pos a) (pos b) = nat_eq a b
int_eq (negsuc a) (negsuc b) = nat_eq a b
int_eq _ _ = false
