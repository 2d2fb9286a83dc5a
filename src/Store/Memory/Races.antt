-- ===== src/Store/Memory/Races.antt =====
-- Two threads of the in-memory store that set the same gate at the same time.
use canary_gate.Prelude.{◌≡◌, refl, true, false, List, [], ◌∷◌, eq_refl}
use canary_gate.Store.Defs.{StoreKey, set_message}
use canary_gate.Store.Book.{sets}
use canary_gate.Store.Memory.{SyncMap, put, update_event}
use canary_gate.Store.Memory.Naming.{IsGate}
use canary_gate.Store.Memory.Gates.{
  gate_of, event_of, set_gate, set_gate_at, set_event, set_event_gate, event_of_self,
}
use canary_gate.Store.Memory.Threads.{access, Choice, begins, moves, run_schedule}
use canary_gate.Store.Memory.Interleavings.{new_world}

-- Thread 0 begins to open the gate and thread 1 to close it; thread 0 sets the gate, thread 1 sets it
-- and records its event, and then thread 0 records its own.
abbrev pub crossing : StoreKey → List Choice
crossing k =
    begins 0 (sets k true) ∷ begins 1 (sets k false) ∷ moves 0 ∷ moves 1 ∷ moves 1 ∷ moves 0 ∷ []

-- Where one request opens a gate while another closes it, over any map, the accesses can come so that
-- the gate is closed in the end while the last event says that it was set open.
pub run_schedule_stale :
    (k : StoreKey) (d : SyncMap)
    → IsGate k
    → (gate_of (run_schedule (crossing k) (record new_world { map = d })).map k ≡ false)
      × (event_of (run_schedule (crossing k) (record new_world { map = d })).map k
          ≡ set_message k true)
unfolding run_schedule access put update_event
run_schedule_stale k d g =
    let opened = set_gate d k true g in
    let closed = set_gate opened k false g in
    let recorded = set_event closed k (set_message k false) g.0 in
    (
      rw
          (
            set_event_gate recorded k (set_message k true) g.0 k g,
            set_event_gate closed k (set_message k false) g.0 k g,
            set_gate_at opened k false g k,
            eq_refl,
          )
          refl,
      event_of_self recorded k (set_message k true) g.0,
    )
