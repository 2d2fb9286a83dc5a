-- ===== src/Store/Book.antt =====
-- The abstract store that the stores of store/ are compared to: a map of gates and a map of events,
-- and the accesses to them.
use canary_gate.Prelude.{
  String, ◌≡◌, ◌≢◌, refl, ap, ◌∙◌, Bool, true, false, ◌&&◌, List, [], ◌∷◌, append, ◌==◌, text_tests,
  eq_iff, and_true, if◌then◌else◌,
}
use canary_gate.Store.Defs.{StoreKey, default_value}
use canary_gate.Store.Contract.{canary_eq}

-- Setting a gate, asking for one, recording an event, and asking for the last one.
pub data Access : Type 0 where
  sets : StoreKey → Bool → Access
  asks : StoreKey → Access
  tells : StoreKey → String → Access
  hears : StoreKey → Access

pub data Answer : Type 0 where
  gate : Bool → Answer
  event : String → Answer

pub record Book : Type 0 where
  pub gates : StoreKey → Bool
  pub events : StoreKey → String

-- Each gate has the default of its type, and there is no event.
abbrev pub default_book : Book
default_book = record { gates = default_value; events = λ k. "" }

abbrev pub key_eq : StoreKey → StoreKey → Bool
key_eq k j = (k.namespace == j.namespace) && ((k.name == j.name) && (k.type == j.type))

abbrev pub set_gate : Book → StoreKey → Bool → Book
set_gate book k b = record book { gates = λ j. if key_eq k j then b else book.gates j }

abbrev pub set_event : Book → StoreKey → String → Book
set_event book k m = record book { events = λ j. if canary_eq k j then m else book.events j }

abbrev pub after : Book → List Access → Book
after book [] = book
after book (sets k b ∷ l) = after (set_gate book k b) l
after book (asks k ∷ l) = after book l
after book (tells k m ∷ l) = after (set_event book k m) l
after book (hears k ∷ l) = after book l

unfoldable pub answers : Book → List Access → List Answer
answers book [] = []
answers book (sets k b ∷ l) = answers (set_gate book k b) l
answers book (asks k ∷ l) = gate (book.gates k) ∷ answers book l
answers book (tells k m ∷ l) = answers (set_event book k m) l
answers book (hears k ∷ l) = event (book.events k) ∷ answers book l

pub key_eq-true : (k j : StoreKey) → key_eq k j ≡ true → k ≡ j
key_eq-true k j e = grind text_tests

pub key_eq-false : (k j : StoreKey) → key_eq k j ≡ false → k ≢ j
key_eq-false k j e same = grind text_tests

pub canary_eq-true :
    (k j : StoreKey) → canary_eq k j ≡ true → (k.namespace ≡ j.namespace) × (k.name ≡ j.name)
canary_eq-true k j e =
    let (ns, name) = and_true (k.namespace == j.namespace) (k.name == j.name) e in
    ((eq_iff _ _).0 ns, (eq_iff _ _).0 name)

-- One access more, at the end.
abbrev pub then_access : Book → Access → Book
then_access book (sets k b) = set_gate book k b
then_access book (asks k) = book
then_access book (tells k m) = set_event book k m
then_access book (hears k) = book

abbrev pub then_answer : Book → Access → List Answer → List Answer
then_answer book (sets k b) given = given
then_answer book (asks k) given = append given (gate (book.gates k))
then_answer book (tells k m) given = given
then_answer book (hears k) given = append given (event (book.events k))

pub after-append :
    (book : Book) (l : List Access) (a : Access)
    → after book (append l a) ≡ then_access (after book l) a
after-append book [] (sets k b) = refl
after-append book [] (asks k) = refl
after-append book [] (tells k m) = refl
after-append book [] (hears k) = refl
after-append book (sets k b ∷ l) a = after-append (set_gate book k b) l a
after-append book (asks k ∷ l) a = after-append book l a
after-append book (tells k m ∷ l) a = after-append (set_event book k m) l a
after-append book (hears k ∷ l) a = after-append book l a

then_answer_cons :
    (book : Book) (a : Access) (x : Answer) (given : List Answer)
    → x ∷ then_answer book a given ≡ then_answer book a (x ∷ given)
then_answer_cons book (sets k b) x given = refl
then_answer_cons book (asks k) x given = refl
then_answer_cons book (tells k m) x given = refl
then_answer_cons book (hears k) x given = refl

pub answers-append :
    (book : Book) (l : List Access) (a : Access)
    → answers book (append l a) ≡ then_answer (after book l) a (answers book l)
unfolding answers
answers-append book [] (sets k b) = refl
answers-append book [] (asks k) = refl
answers-append book [] (tells k m) = refl
answers-append book [] (hears k) = refl
answers-append book (sets k b ∷ l) a = answers-append (set_gate book k b) l a
answers-append book (asks k ∷ l) a =
    ap (λ r. gate (book.gates k) ∷ r) (answers-append book l a)
    ∙ then_answer_cons (after book l) a (gate (book.gates k)) (answers book l)
answers-append book (tells k m ∷ l) a = answers-append (set_event book k m) l a
answers-append book (hears k ∷ l) a =
    ap (λ r. event (book.events k) ∷ r) (answers-append book l a)
    ∙ then_answer_cons (after book l) a (event (book.events k)) (answers book l)

pub canary_eq-false :
    (k j : StoreKey) → canary_eq k j ≡ false → k.namespace ≡ j.namespace → k.name ≡ j.name → ⊥
canary_eq-false k j e ns name = grind text_tests
