-- ===== src/Prelude/Text.antt =====
-- Texts joined by a separator that the left part lacks.
use Prim.Native.Char.{Char}
use Prim.Native.String.{String, [], ◌∷◌, ◌++◌}
use Prim.Native.String.append
use mathlib.Core.Path.{◌≡◌, refl, sym, ◌∙◌}
use mathlib.Core.Logic.{◌≢◌}
use text.Mathlib.TextLemmas.{head-eq_of_cons-eq, tail-eq_of_cons-eq}

-- The character `c` does not occur in the text.
abbrev pub Lacks : Char → String → Type 0
Lacks c [] = Unit {0}
Lacks c (d ∷ s) = (d ≢ c) × Lacks c s

pub append_cons_inj :
    (c : Char) (s s' t t' : String)
    → Lacks c s
    → Lacks c s'
    → s ++ (c ∷ t) ≡ s' ++ (c ∷ t')
    → (s ≡ s') × (t ≡ t')
append_cons_inj c [] [] t t' h h' e =
    (refl, tail-eq_of_cons-eq (sym (append.nil _) ∙ e ∙ append.nil _))
append_cons_inj c [] (d ∷ s') t t' h h' e =
    absurd (h'.0 (sym (head-eq_of_cons-eq (sym (append.nil _) ∙ e ∙ append.cons d s' _))))
append_cons_inj c (d ∷ s) [] t t' h h' e =
    absurd (h.0 (head-eq_of_cons-eq (sym (append.cons d s _) ∙ e ∙ append.nil _)))
append_cons_inj c (d ∷ s) (d' ∷ s') t t' h h' e =
    let e' = sym (append.cons d s _) ∙ e ∙ append.cons d' s' _ in
    let rest = append_cons_inj c s s' t t' h.1 h'.1 (tail-eq_of_cons-eq e') in
    (cc (head-eq_of_cons-eq e', rest.0), rest.1)
