-- ===== src/Tests/Paths.antt =====
-- The rest of a text after a start that it has.
use Prim.Native.String.{String, [], ◌∷◌, ◌++◌}
use Prim.Native.String.append
use canary_gate.Prelude.{◌≡◌}

abbrev pub strip : String → String → String
strip [] p = p
strip (c ∷ pre) [] = ""
strip (c ∷ pre) (d ∷ p) = strip pre p

pub strip_append : (pre p : String) → strip pre (pre ++ p) ≡ p
strip_append [] p = append.nil p
strip_append (c ∷ pre) p = rw (append.cons c pre p) (strip_append pre p)
