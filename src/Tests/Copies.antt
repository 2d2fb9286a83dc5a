-- ===== src/Tests/Copies.antt =====
-- A heap of texts, and copies of resources whose metadata and raw specs are pointers into it.
use canary_gate.Prelude.{
  ℕ, suc, String, ◌≡◌, refl, sym, ◌∙◌, subst, Option, none, some, List, [], ◌∷◌, append, get_elem?,
  some≢none, ap,
}
use canary_gate.Api.Copies.{Copy, Heap, Layout, IsDeep, plain, plain_copy, plain-IsDeep}
use canary_gate.Api.Slices.{or_nil}
use canary_gate.Api.DeepCopy.{gate_deep_copy_object, list_deep_copy_object}
use canary_gate.Api.Isolation.{gate_layout, gate_list_layout, gate_objects-IsDeep}
use canary_gate.Tests.Rivals.{append-get_elem?}

abbrev Texts : Type 0
Texts = List String

abbrev length : Texts → ℕ
length [] = 0
length (x ∷ xs) = suc (length xs)

append-length : (xs : Texts) (x : String) → get_elem? (append xs x) (length xs) ≡ some x
append-length [] x = refl
append-length (y ∷ xs) x = append-length xs x

get_elem?-length : (xs : Texts) → get_elem? xs (length xs) ≡ none
get_elem?-length [] = refl
get_elem?-length (x ∷ xs) = get_elem?-length xs

abbrev text_heap : Heap Texts
text_heap = record {
  Loc = ℕ;
  Live = λ h l. (s : String) × (get_elem? h l ≡ some s);
  Extends = λ h h'. (l : ℕ) (s : String) → get_elem? h l ≡ some s → get_elem? h' l ≡ some s;
  extends_refl = λ h l s e. e;
  extends_trans = λ h h' h'' f g l s e. g l s (f l s e);
  live = λ h h' l f live. (live.0, f l live.0 live.1);
  allocate = λ h. (length h, append h "");
  allocate_extends = λ h l s e. append-get_elem? h "" s l e;
  allocate_live = λ h. ("", append-length h "");
  allocate_fresh = λ h was. some≢none (sym was.1 ∙ get_elem?-length h);
}

abbrev text_at : Option String → String
text_at none = ""
text_at (some s) = s

-- A new cell with the same text.
abbrev pointer_copy : Copy Texts ℕ
pointer_copy p h = (length h, append h (text_at (get_elem? h p)))

abbrev pointer : Layout text_heap ℕ
pointer = record {
  Value = Option String;
  value = λ h p. get_elem? h p;
  Cell = λ h p l. l ≡ p;
  value_stays = λ h h' p more live. let (s, e) = live p refl in more p s e ∙ sym e;
  cells_stay = λ h h' p more live l cell. cell;
}

pointer_copy-IsDeep : IsDeep text_heap pointer pointer_copy
pointer_copy-IsDeep = record {
  grows = λ p h l s e. append-get_elem? h (text_at (get_elem? h p)) s l e;
  same_value = λ p h live.
      let (s, e) = live p refl in
      append-length h (text_at (get_elem? h p)) ∙ ap (λ x. some (text_at x)) e ∙ sym e;
  copy_live = λ p h l cell. (
    text_at (get_elem? h p),
    subst (λ l. get_elem? (append h (text_at (get_elem? h p))) l ≡ some (text_at (get_elem? h p)))
        (sym cell) (append-length h (text_at (get_elem? h p))),
  );
  fresh = λ p h l cell was.
      some≢none (sym was.1 ∙ subst (λ l. get_elem? h l ≡ none) (sym cell) (get_elem?-length h));
}

gate_objects-IsDeep_example :
    IsDeep text_heap
      (or_nil text_heap (gate_layout text_heap pointer pointer))
      (gate_deep_copy_object text_heap.allocate pointer_copy pointer_copy)
    × IsDeep text_heap
        (or_nil text_heap (gate_list_layout text_heap pointer pointer (plain text_heap String)))
        (list_deep_copy_object text_heap.allocate pointer_copy pointer_copy (plain_copy text_heap))
gate_objects-IsDeep_example =
    gate_objects-IsDeep text_heap pointer pointer pointer_copy pointer_copy pointer_copy-IsDeep
      pointer_copy-IsDeep (plain text_heap String) (plain_copy text_heap)
      (plain-IsDeep text_heap String)
