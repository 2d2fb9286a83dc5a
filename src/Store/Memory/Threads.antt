-- ===== src/Store/Memory/Threads.antt =====
-- Requests at the same time on the in-memory store: each access of `sync.Map` in store/memory.go is
-- atomic, and the accesses of the methods that run at the same time come in any order.
use canary_gate.Prelude.{
  ◌≡◌, refl, arith, nat_eq, ℕ, String, Bool, true, false, List, [], ◌∷◌, append, if◌then◌else◌,
}
use canary_gate.Runtime.Exec.{Outcome, done, panic, Panic}
use canary_gate.Store.Defs.{StoreKey, set_message}
use canary_gate.Store.Book.{Access, sets, asks, tells, hears, Answer, gate, event}
use canary_gate.Store.Memory.{
  SyncMap, bool, get_key, put, update_event, is_gate_open, get_last_event,
}

-- A method is named by its first access: `GateOpen` and `GateClose` set a gate, and then tell the
-- event of it, and the other methods have one access.
abbrev pub Method : Type 0
Method = Access

-- Where a thread stands: it runs no method, it is before the first access of one, between the two
-- accesses of `GateOpen` or `GateClose`, or it has panicked.
pub data Pc : Type 0 where
  idle : Pc
  calling : Method → Pc
  recording : StoreKey → String → Pc
  panicked : Panic → Pc

abbrev pub is_idle : Pc → Bool
is_idle idle = true
is_idle _ = false

-- The map, the threads, the accesses so far, and the answers that were given so far.
pub record World : Type 0 where
  pub map : SyncMap
  pub pc : ℕ → Pc
  pub log : List Access
  pub given : List Answer

abbrev pub update : (ℕ → Pc) → ℕ → Pc → ℕ → Pc
update pc i p j = if nat_eq i j then p else pc j

-- The end of an access that gives an answer, or panics.
abbrev pub answered : {A : Type 0} → (A → Answer) → Outcome A × SyncMap → ℕ → Access → World → World
answered f (done a, d) i access w = record {
  map = d;
  pc = update w.pc i idle;
  log = append w.log access;
  given = append w.given (f a);
}
answered f (panic p, d) i access w = record w { map = d; pc = update w.pc i (panicked p) }

-- The end of an access that gives none.
abbrev pub told : Outcome (Unit {0}) × SyncMap → ℕ → Access → World → World
told (done _, d) i access w = record w {
  map = d;
  pc = update w.pc i idle;
  log = append w.log access;
}
told (panic p, d) i access w = record w { map = d; pc = update w.pc i (panicked p) }

-- The next access of thread `i`, which stands at the given place.
unfoldable pub access : ℕ → Pc → World → World
access i idle w = w
access i (panicked p) w = w
access i (calling (sets k b)) w = record w {
  map = (put (get_key k) (bool b) w.map).1;
  pc = update w.pc i (recording k (set_message k b));
  log = append w.log (sets k b);
}
access i (recording k m) w = told (update_event k "Updated" m w.map) i (tells k m) w
access i (calling (tells k m)) w = told (update_event k "" m w.map) i (tells k m) w
access i (calling (asks k)) w = answered gate (is_gate_open k w.map) i (asks k) w
access i (calling (hears k)) w = answered event (get_last_event k w.map) i (hears k) w

-- A choice of the scheduler: a thread that runs no method begins one, or a thread makes its next
-- access. A choice that is not possible changes nothing.
pub data Choice : Type 0 where
  begins : ℕ → Method → Choice
  moves : ℕ → Choice

unfoldable pub act : Choice → World → World
unfolding access
act (begins i m) w = if is_idle (w.pc i) then record w { pc = update w.pc i (calling m) } else w
act (moves i) w = access i (w.pc i) w

unfoldable pub run_schedule : List Choice → World → World
unfolding act
run_schedule [] w = w
run_schedule (c ∷ cs) w = run_schedule cs (act c w)

nat_eq_self : (i : ℕ) → nat_eq i i ≡ true
nat_eq_self i = ground arith

pub update_self : (pc : ℕ → Pc) (i : ℕ) (p : Pc) → update pc i p i ≡ p
update_self pc i p = rw (nat_eq_self i) refl
