-- ===== src/Store/Contract.antt =====
-- What the interface of the stores (`Store` in store/store.go) promises, over whatever state holds the
-- gates and the events.
use canary_gate.Prelude.{String, ◌==◌, ◌&&◌, ◌≡◌, Bool, true, false}
use canary_gate.Runtime.Exec.{Exec, done}
use canary_gate.Store.Defs.{Store, StoreKey, set_message}

-- The keys name the same canary.
abbrev pub canary_eq : StoreKey → StoreKey → Bool
canary_eq k j = (k.namespace == j.namespace) && (k.name == j.name)

-- `m` ends without a panic, with the value `a`, in a state that `P` holds of.
abbrev pub Ends : {S A : Type 0} → Exec S A → S → A → (S → Type 0) → Type 0
Ends {S} m s a P = (t : S) × (m s ≡ (done a, t)) × P t

-- How a state is seen: which gates are open, and the last event of each canary. `IsGate k` says which
-- keys name a gate of the store, `Apart k j` which of them it keeps apart, `IsCanary k` which keys name
-- a canary whose events it keeps, and `Aside k j` which of these it keeps apart.
pub record View (S : Type 0) : Type 1 where
  pub IsValid : S → Type 0
  pub IsGate : StoreKey → Type 0
  pub IsCanary : StoreKey → Type 0
  pub Apart : StoreKey → StoreKey → Type 0
  pub Aside : StoreKey → StoreKey → Type 0
  pub gates : S → StoreKey → Bool
  pub events : S → StoreKey → String

module _ {S : Type 0} (v : View S) where
  abbrev pub SameGates : S → S → Type 0
  SameGates s t = (j : StoreKey) → v.IsGate j → v.gates t j ≡ v.gates s j

  abbrev pub SameEvents : S → S → Type 0
  SameEvents s t = (j : StoreKey) → v.IsCanary j → v.events t j ≡ v.events s j

  -- The events of the canaries that are kept aside from that of `k`.
  abbrev pub SameAside : StoreKey → S → S → Type 0
  SameAside k s t = (j : StoreKey) → v.IsCanary j → v.Aside k j → v.events t j ≡ v.events s j

  -- `t` is `s` with the gate of `k` set to `b`, and the message of it as the event of the canary.
  abbrev pub GateSet : StoreKey → Bool → S → S → Type 0
  GateSet k b s t =
      v.IsValid t
      × (v.gates t k ≡ b)
      × ((j : StoreKey) → v.IsGate j → v.Apart k j → v.gates t j ≡ v.gates s j)
      × (v.events t k ≡ set_message k b)
      × SameAside k s t

-- The contract of a store that is seen as `v`.
pub record IsGateStore {S : Type 0} (st : Store S) (v : View S) : Type 0 where
  pub is_gate_open_reads :
      (s : S) (k : StoreKey)
      → v.IsValid s
      → v.IsGate k
      → Ends
          (st.is_gate_open k)
          s
          (v.gates s k)
          (λ t. v.IsValid t × SameGates v s t × SameEvents v s t)
  pub gate_open_sets :
      (s : S) (k : StoreKey)
      → v.IsValid s
      → v.IsGate k
      → Ends (st.gate_open k) s tt (GateSet v k true s)
  pub gate_close_sets :
      (s : S) (k : StoreKey)
      → v.IsValid s
      → v.IsGate k
      → Ends (st.gate_close k) s tt (GateSet v k false s)
  pub get_last_event_reads :
      (s : S) (k : StoreKey)
      → v.IsValid s
      → v.IsCanary k
      → Ends (st.get_last_event k) s (v.events s k) (λ t. t ≡ s)
  pub update_event_sets :
      (s : S) (k : StoreKey) (status message : String)
      → v.IsValid s
      → v.IsCanary k
      → Ends
          (st.update_event k status message)
          s
          tt
          (λ t. v.IsValid t × (v.events t k ≡ message) × SameGates v s t × SameAside v k s t)
