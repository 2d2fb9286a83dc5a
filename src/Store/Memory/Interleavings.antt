-- ===== src/Store/Memory/Interleavings.antt =====
-- What holds of the in-memory store however the accesses of the methods come.
use canary_gate.Prelude.{
  nat_eq, ℕ, String, ◌≡◌, refl, sym, ap, ◌∙◌, subst, Bool, true, false, List, [], ◌∷◌, append, inl,
  inr, eq_iff, eq-false, Bool-cases, if◌then◌else◌,
}
use canary_gate.Runtime.Exec.{Outcome}
use canary_gate.Store.Defs.{StoreKey, set_message}
use canary_gate.Store.Book
use canary_gate.Store.Book.{
  Access, sets, asks, tells, hears, Answer, gate, event, Book, default_book, after, answers,
  then_access, then_answer, after-append, answers-append, key_eq, key_eq-true, key_eq-false,
}
use canary_gate.Store.Refinement.{Sees, events_set}
use canary_gate.Store.Memory.{SyncMap, put, get_key, memory_store, new_memory_store}
use canary_gate.Store.Memory.Naming.{IsGate, HasPlainNames, get_key_inj}
use canary_gate.Store.Memory.Gates.{
  IsValid, gate_of, event_value, view, memory_store-IsGateStore, set_gate, set_gate_at,
  set_gate_event, set_gate-IsValid,
}
use canary_gate.Store.Memory.Histories.{
  new_memory_store-IsValid, new_memory_store-Sees, view-Separates,
}
use canary_gate.Store.Memory.Threads.{
  Method, Pc, idle, calling, recording, panicked, World, update, told, access, Choice, begins,
  moves, act, run_schedule, is_idle,
}

-- The map is seen as the book.
abbrev pub Shows : SyncMap → Book → Type 0
Shows d book = Sees memory_store view memory_store-IsGateStore view-Separates d book

-- The key of a method names a gate, or a canary.
abbrev pub IsMethod : Method → Type 0
IsMethod (sets k b) = IsGate k
IsMethod (asks k) = IsGate k
IsMethod (tells k m) = HasPlainNames k
IsMethod (hears k) = HasPlainNames k

abbrev pub AllMethods : List Choice → Type 0
AllMethods [] = Unit {0}
AllMethods (begins i m ∷ cs) = IsMethod m × AllMethods cs
AllMethods (moves i ∷ cs) = AllMethods cs

-- A thread that has not panicked, and whose method is about a gate or a canary.
abbrev pub IsFit : Pc → Type 0
IsFit idle = Unit {0}
IsFit (calling m) = IsMethod m
IsFit (recording k m) = HasPlainNames k
IsFit (panicked p) = ⊥

-- The map holds gates and events, no thread has panicked, the map shows what the accesses so far leave
-- of the book of defaults, and the answers so far are those that the book gives to these accesses.
pub record IsLinear (w : World) : Type 0 where
  pub valid : IsValid w.map
  pub fit : (i : ℕ) → IsFit (w.pc i)
  pub shows : Shows w.map (after default_book w.log)
  pub given : w.given ≡ answers default_book w.log

IsFit-if : (b : Bool) (p q : Pc) → IsFit p → IsFit q → IsFit (if b then p else q)
IsFit-if true p q hp hq = hp
IsFit-if false p q hp hq = hq

-- The first access of `GateOpen` and `GateClose`, seen at every gate and every event.
Shows-set_gate :
    (d : SyncMap) (book : Book) (k : StoreKey) (b : Bool) (g : IsGate k)
    → Shows d book
    → Shows (set_gate d k b g) (Book.set_gate book k b)
Shows-set_gate d book k b g shows = record {
  gates = λ j h. elim (Bool-cases (key_eq k j)) [
    | inl same ↦
        rw
          (
            set_gate_at d k b g j,
            same,
            (eq_iff (get_key k) (get_key j)).1 (ap get_key (key_eq-true k j same)),
          )
          refl
    | inr other ↦
        rw
          (
            set_gate_at d k b g j,
            other,
            eq-false (get_key k) (get_key j)
                (λ e. key_eq-false k j other (get_key_inj k j g.0 h.0 e)),
          )
          (shows.gates j h)
  ];
  events = λ j h. ap event_value (set_gate_event d k b g j h) ∙ shows.events j h;
}

module _ (w : World) (h : IsLinear w) (i : ℕ) where
  IsFit-update : (p : Pc) → IsFit p → (j : ℕ) → IsFit (update w.pc i p j)
  IsFit-update p hp j = IsFit-if (nat_eq i j) p (w.pc j) hp (h.fit j)

  abbrev book : Book
  book = after default_book w.log

  accessed :
      (d : SyncMap) (p : Pc) (a : Access) (given : List Answer)
      → IsFit p
      → IsValid d
      → Shows d (then_access book a)
      → given ≡ then_answer book a w.given
      → IsLinear (record { map = d; pc = update w.pc i p; log = append w.log a; given = given })
  accessed d p a given fit valid shows e = record {
    valid = valid;
    fit = IsFit-update p fit;
    shows = subst (Shows d) (sym (after-append default_book w.log a)) shows;
    given = e ∙ ap (then_answer book a) h.given ∙ sym (answers-append default_book w.log a);
  }

  tells-IsLinear :
      (k : StoreKey) (status m : String) (x : Outcome (Unit {0}) × SyncMap)
      → HasPlainNames k
      → x ≡ memory_store.update_event k status m w.map
      → IsLinear (told x i (tells k m) w)
  tells-IsLinear k status m x names e =
      let (d, run, (valid, at_k, same, others)) =
        memory_store-IsGateStore.update_event_sets w.map k status m h.valid names in
      rw (e, run)
        (accessed d idle (tells k m) w.given tt valid
          (record {
            gates = λ j g. same j g ∙ h.shows.gates j g;
            events =
                events_set memory_store view memory_store-IsGateStore view-Separates w.map d book k
                  m h.shows at_k others;
          })
          refl)

  pub access-IsLinear : (p : Pc) → IsFit p → IsLinear (access i p w)
  unfolding access put
  access-IsLinear idle fit = h
  access-IsLinear (panicked p) fit = absurd fit
  access-IsLinear (calling (sets k b)) fit =
      accessed (set_gate w.map k b fit) (recording k (set_message k b)) (sets k b) w.given fit.0
        (set_gate-IsValid w.map k b fit h.valid) (Shows-set_gate w.map book k b fit h.shows) refl
  access-IsLinear (calling (tells k m)) fit = tells-IsLinear k "" m _ fit refl
  access-IsLinear (recording k m) fit = tells-IsLinear k "Updated" m _ fit refl
  access-IsLinear (calling (asks k)) fit =
      let (d, run, (valid, gates, events)) =
        memory_store-IsGateStore.is_gate_open_reads w.map k h.valid fit in
      rw run (
        accessed d idle (asks k) (append w.given (gate (gate_of w.map k))) tt valid
          (record {
            gates = λ j g. gates j g ∙ h.shows.gates j g;
            events = λ j n. events j n ∙ h.shows.events j n;
          })
          (ap (λ b. append w.given (gate b)) (h.shows.gates k fit)))
  access-IsLinear (calling (hears k)) fit =
      let (d, run, same) = memory_store-IsGateStore.get_last_event_reads w.map k h.valid fit in
      rw (run, same)
        (accessed w.map idle (hears k) _ tt h.valid h.shows
          (ap (λ m. append w.given (event m)) (h.shows.events k fit)))

pub begins-IsLinear :
    (i : ℕ) (m : Method) (w : World) → IsMethod m → IsLinear w → IsLinear (act (begins i m) w)
unfolding act
begins-IsLinear i m w ok h = elim (Bool-cases (is_idle (w.pc i))) [
  | inl free ↦ rw free (record {
    valid = h.valid;
    fit = IsFit-update w h i (calling m) ok;
    shows = h.shows;
    given = h.given;
  })
  | inr busy ↦ rw busy h
]

-- The world at the start: a new store, and no thread that runs a method.
abbrev pub new_world : World
new_world = record { map = new_memory_store; pc = λ i. idle; log = []; given = [] }

pub new_world-IsLinear : IsLinear new_world
unfolding answers
new_world-IsLinear = record {
  valid = new_memory_store-IsValid;
  fit = λ i. tt;
  shows = new_memory_store-Sees;
  given = refl;
}

pub run_schedule_keeps :
    (cs : List Choice) (w : World) → AllMethods cs → IsLinear w → IsLinear (run_schedule cs w)
unfolding run_schedule
run_schedule_keeps [] w all h = h
run_schedule_keeps (begins i m ∷ cs) w all h =
    run_schedule_keeps cs (act (begins i m) w) all.1 (begins-IsLinear i m w all.0 h)
run_schedule_keeps (moves i ∷ cs) w all h =
    run_schedule_keeps cs (act (moves i) w) all (access-IsLinear w h i (w.pc i) (h.fit i))

-- However the accesses of the methods come, for any number of requests on gates and canaries at the
-- same time from a new in-memory store: no request has panicked, the map shows what the accesses so far
-- leave of a map of gates with their defaults and a map of empty events, and the answers given so far
-- are those of these maps to the accesses in their order.
pub run_schedule-IsLinear :
    (cs : List Choice) → AllMethods cs → IsLinear (run_schedule cs new_world)
run_schedule-IsLinear cs all = run_schedule_keeps cs new_world all new_world-IsLinear
