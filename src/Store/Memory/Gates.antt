-- ===== src/Store/Memory/Gates.antt =====
-- The gates of the in-memory store (store/memory.go), seen as the contract of the stores wants.
use canary_gate.Prelude.{
  ◌∙◌, String, ◌≡◌, ◌≢◌, refl, sym, ap, subst, inl, inr, Bool, true, false, Option, none, some,
  ◌==◌, eq_iff, eq_refl, eq-false, Bool-cases, if◌then◌else◌,
}
use canary_gate.Runtime.Dict.{lookup, insert, lookup-insert}
use canary_gate.Store.Defs.{StoreKey, default_value, set_message}
use canary_gate.Store.Contract.{canary_eq, IsGateStore, Ends, View, GateSet, SameGates, SameEvents}
use canary_gate.Store.Memory.{
  Any, bool, text, SyncMap, get_key, get_event_key, memory_store, load_or_store, is_gate_open,
  gate_open, gate_close, update_event, get_last_event,
}
use canary_gate.Store.Memory.Naming.{
  IsGate, HasPlainNames, get_key_inj, get_event_key-ne, get_event_key-other,
}

abbrev pub gate_value : StoreKey → Option Any → Bool
gate_value k none = default_value k
gate_value k (some (bool b)) = b
gate_value k (some (text t)) = default_value k

-- Whether a gate is open: what is stored, or the default of its type.
abbrev pub gate_of : SyncMap → StoreKey → Bool
gate_of d k = gate_value k (lookup d (get_key k))

abbrev HoldsGate : Option Any → Type 0
HoldsGate (some (text t)) = ⊥
HoldsGate _ = Unit {0}

abbrev HoldsEvent : Option Any → Type 0
HoldsEvent (some (bool b)) = ⊥
HoldsEvent _ = Unit {0}

abbrev pub event_value : Option Any → String
event_value (some (text t)) = t
event_value _ = ""

-- The last event of the canary of `k`.
abbrev pub event_of : SyncMap → StoreKey → String
event_of d k = event_value (lookup d (get_event_key k))

-- No gate's entry is a text, and no event's entry is a Boolean.
pub record IsValid (d : SyncMap) : Type 0 where
  pub holds : (k : StoreKey) → IsGate k → HoldsGate (lookup d (get_key k))
  pub events : (k : StoreKey) → HasPlainNames k → HoldsEvent (lookup d (get_event_key k))

abbrev pub view : View SyncMap
view = record {
  IsValid = IsValid;
  IsGate = IsGate;
  IsCanary = HasPlainNames;
  Apart = λ k j. k ≢ j;
  Aside = λ k j. canary_eq k j ≡ false;
  gates = gate_of;
  events = event_of;
}

-- A write of a gate, seen at every gate and at every event.
module _ (d : SyncMap) (k : StoreKey) (b : Bool) (g : IsGate k) where
  abbrev pub set_gate : SyncMap
  set_gate = insert d (get_key k) (bool b)

  pub set_gate_at :
      (j : StoreKey)
      → lookup set_gate (get_key j)
        ≡ (if get_key k == get_key j then some (bool b) else lookup d (get_key j))
  set_gate_at j = lookup-insert d (get_key k) (get_key j) (bool b)

  pub set_gate_event :
      (j : StoreKey)
      → HasPlainNames j
      → lookup set_gate (get_event_key j) ≡ lookup d (get_event_key j)
  set_gate_event j h = rw (lookup-insert, eq-false _ _ (λ e. get_event_key-ne j k h g (sym e))) refl

  HoldsGate-if :
      (c : Bool) (o : Option Any) → HoldsGate o → HoldsGate (if c then some (bool b) else o)
  HoldsGate-if true o h = tt
  HoldsGate-if false o h = h

  pub set_gate-IsValid : IsValid d → IsValid set_gate
  set_gate-IsValid v = record {
    holds = λ j h. rw (set_gate_at j) (HoldsGate-if (get_key k == get_key j) _ (v.holds j h));
    events = λ j h. rw (set_gate_event j h) (v.events j h);
  }

-- A write of an event, seen at every gate and at every event.
module _ (d : SyncMap) (k : StoreKey) (m : String) (g : HasPlainNames k) where
  abbrev pub set_event : SyncMap
  set_event = insert d (get_event_key k) (text m)

  pub set_event_gate :
      (j : StoreKey) → IsGate j → lookup set_event (get_key j) ≡ lookup d (get_key j)
  set_event_gate j h = rw (lookup-insert, eq-false _ _ (get_event_key-ne k j g h)) refl

  HoldsEvent-if :
      (c : Bool) (o : Option Any) → HoldsEvent o → HoldsEvent (if c then some (text m) else o)
  HoldsEvent-if true o h = tt
  HoldsEvent-if false o h = h

  set_event-IsValid : IsValid d → IsValid set_event
  set_event-IsValid v = record {
    holds = λ j h. rw (set_event_gate j h) (v.holds j h);
    events = λ j h.
        rw (lookup-insert d (get_event_key k) (get_event_key j))
          (HoldsEvent-if (get_event_key k == get_event_key j) _ (v.events j h));
  }

  pub event_of_self : event_of set_event k ≡ m
  event_of_self = rw (lookup-insert, eq_refl) refl

  pub event_of_other :
      (j : StoreKey) → HasPlainNames j → canary_eq k j ≡ false → event_of set_event j ≡ event_of d j
  event_of_other j h aside =
      rw
        (
          lookup-insert,
          eq-false (get_event_key k) (get_event_key j) (get_event_key-other k j g h aside),
        )
        refl

-- Setting one gate, then the event of its canary.
module _ (d : SyncMap) (k : StoreKey) (b : Bool) (g : IsGate k) where
  abbrev after : SyncMap
  after = set_event (set_gate d k b g) k (set_message k b) g.0

  gate_of_self : gate_of after k ≡ b
  gate_of_self =
      rw
        (
          set_event_gate (set_gate d k b g) k (set_message k b) g.0 k g,
          set_gate_at d k b g,
          eq_refl,
        )
        refl

  gate_of-other : (j : StoreKey) → IsGate j → k ≢ j → gate_of after j ≡ gate_of d j
  gate_of-other j h ne =
      rw
        (
          set_event_gate (set_gate d k b g) k (set_message k b) g.0 j h,
          set_gate_at d k b g j,
          eq-false (get_key k) (get_key j) (λ e. ne (get_key_inj k j g.0 h.0 e)),
        )
        refl

  after-GateSet : IsValid d → GateSet view k b d after
  after-GateSet v = (
    set_event-IsValid (set_gate d k b g) k (set_message k b) g.0 (set_gate-IsValid d k b g v),
    gate_of_self,
    gate_of-other,
    event_of_self (set_gate d k b g) k (set_message k b) g.0,
    (λ j h aside.
        event_of_other (set_gate d k b g) k (set_message k b) g.0 j h aside
        ∙ ap event_value (set_gate_event d k b g j h)),
  )

-- Reading a gate that was never set stores its default.
gate_of-filled :
    (d : SyncMap) (k : StoreKey) (g : IsGate k)
    → lookup d (get_key k) ≡ none
    → SameGates view d (set_gate d k (default_value k) g)
gate_of-filled d k g e j h = elim (Bool-cases (get_key k == get_key j)) [
  | inl same ↦
      let k≡j = get_key_inj k j g.0 h.0 ((eq_iff _ _).0 same) in
      rw (set_gate_at d k (default_value k) g j, same) (rw (← k≡j) (rw e refl))
  | inr other ↦ rw (set_gate_at d k (default_value k) g j, other) refl
]

reads :
    (d : SyncMap) (k : StoreKey)
    → IsValid d
    → IsGate k
    → Ends
        (is_gate_open k)
        d
        (gate_of d k)
        (λ t. IsValid t × SameGates view d t × SameEvents view d t)
unfolding is_gate_open
reads d k v g = go (lookup d (get_key k)) refl
  where
    go :
        (o : Option Any)
        → lookup d (get_key k) ≡ o
        → Ends
            (is_gate_open k)
            d
            (gate_of d k)
            (λ t. IsValid t × SameGates view d t × SameEvents view d t)
    go none e =
        let b = default_value k in
        (
          set_gate d k b g,
          rw (e, load_or_store),
          (
            set_gate-IsValid d k b g v,
            gate_of-filled d k g e,
            λ j h. ap event_value (set_gate_event d k b g j h),
          ),
        )
    go (some (bool b)) e = (d, rw (e, load_or_store), (v, (λ j h. refl), (λ j h. refl)))
    go (some (text t)) e = absurd (subst HoldsGate e (v.holds k g))

last_event :
    (d : SyncMap) (k : StoreKey)
    → IsValid d
    → HasPlainNames k
    → Ends (get_last_event k) d (event_of d k) (λ t. t ≡ d)
unfolding get_last_event
last_event d k v g = go (lookup d (get_event_key k)) refl
  where
    go :
        (o : Option Any)
        → lookup d (get_event_key k) ≡ o
        → Ends (get_last_event k) d (event_of d k) (λ t. t ≡ d)
    go none e = (d, rw e, refl)
    go (some (text t)) e = (d, rw e, refl)
    go (some (bool b)) e = absurd (subst HoldsEvent e (v.events k g))

-- The in-memory store keeps the contract of the stores, for keys whose names hold no colon and
-- whose type is not `event`: a gate reads as it was last set, or as the default of its type,
-- setting or reading one changes no other key's, reading changes no gate and no event, and after an
-- event is recorded or a gate set, the event reads as that one, or as the message of the change, and
-- no event of another canary has changed.
pub memory_store-IsGateStore : IsGateStore memory_store view
unfolding gate_open gate_close update_event
memory_store-IsGateStore = record {
  is_gate_open_reads = reads;
  gate_open_sets = λ d k v g. (after d k true g, refl, after-GateSet d k true g v);
  gate_close_sets = λ d k v g. (after d k false g, refl, after-GateSet d k false g v);
  get_last_event_reads = last_event;
  update_event_sets = λ d k status m v g. (
    set_event d k m g,
    refl,
    (
      set_event-IsValid d k m g v,
      event_of_self d k m g,
      (λ j h. ap (gate_value j) (set_event_gate d k m g j h)),
      event_of_other d k m g,
    ),
  );
}
