-- ===== src/Store/ConfigMap/Writes.antt =====
-- What the ConfigMap store writes while other clients write to its ConfigMaps.
use canary_gate.Prelude.{
  String, ◌≡◌, sym, subst, if◌then◌else◌, Bool, Bool-cases, Option-cases, true, false, some, List,
  ◌⊎◌, inl, inr,
}
use canary_gate.Runtime.Safe.{Keeps-cases, Keeps, Any}
use canary_gate.Runtime.Dict.{Dict, insert}
use canary_gate.Service.{hook_event}
use canary_gate.Kube.Api.{Reply-cases, Reply, ok, err, is_not_found, is_status_error}
use canary_gate.Kube.Retry.{IsBounded}
use canary_gate.Kube.Journal
use canary_gate.Kube.Journal.{Change, created, replaced, Grew, unchanged, IsVersioned}
use canary_gate.Store.Defs.{StoreKey, gate_status, set_message}
use canary_gate.Store.Refinement.{Call, opens, closes, is_open, records, last_event}
use canary_gate.Store.ConfigMap.{
  ConfigMapStore, Data, ConfigMap, write_map, get_config_map_name, get_config_map_namespace,
  new_config_map, create_config_map, get_config_map, create_config_map_and_get, update_event_once,
  update_event, update_gate_once, update_gate, is_gate_open,
}

-- What a call sets a field of a ConfigMap to: a gate its status and the event, a record the event.
abbrev pub SetsGate : StoreKey → Bool → String → String → Type 0
SetsGate k b f v = ((f ≡ k.type) × (v ≡ gate_status b)) ⊎ ((f ≡ hook_event) × (v ≡ set_message k b))

abbrev pub SetsEvent : String → String → String → Type 0
SetsEvent m f v = (f ≡ hook_event) × (v ≡ m)

module _ {S : Type 0} (st : ConfigMapStore S) where
  -- The writes to the ConfigMap of a key: it is created with the default of the gate, or one field of
  -- what it holds at that moment is set.
  pub data MapWrite (k : StoreKey) (Sets : String → String → Type 0) : Change Data → Type 0 where
    new_map : MapWrite k Sets (
        created
          (get_config_map_namespace st k)
          (get_config_map_name k)
          ((new_config_map st k).content))
    field_set :
        (d : Dict String) (f v : String)
        → Sets f v
        → MapWrite k Sets (
            replaced
              (get_config_map_namespace st k)
              (get_config_map_name k)
              (some d)
              (some (insert d f v)))

  abbrev pub Writes : Call → Change Data → Type 0
  Writes (opens k) c = MapWrite k (SetsGate k true) c
  Writes (closes k) c = MapWrite k (SetsGate k false) c
  Writes (is_open k) c = MapWrite k (λ f v. ⊥) c
  Writes (records k status message) c = MapWrite k (SetsEvent message) c
  Writes (last_event k) c = ⊥

  module _ (bound : IsBounded st.retry) (ver : IsVersioned st.client) (k : StoreKey)
      (Sets : String → String → Type 0) (l : List (Change Data)) where
    abbrev pub I : S → Type 0
    I = Journal.Wrote st.client ver (MapWrite k Sets) l

    abbrev pub Got : Reply ConfigMap → S → Type 0
    Got =
        Journal.Got st.client ver (MapWrite k Sets) l (get_config_map_namespace st k)
          (get_config_map_name k)

    Keeps-create_config_map : Keeps I Any (create_config_map st k)
    unfolding create_config_map
    Keeps-create_config_map =
        Journal.Keeps-create st.client ver (MapWrite k Sets) l _ (new_config_map st k) new_map

    Keeps-get_config_map : Keeps I Got (get_config_map st k)
    unfolding get_config_map
    Keeps-get_config_map = Journal.Keeps-get st.client ver (MapWrite k Sets) l _ _

    -- Loading a ConfigMap gives what it was at its version.
    pub Keeps-load : Keeps I Got (create_config_map_and_get st k)
    unfolding create_config_map_and_get get_config_map create_config_map
    Keeps-load s i =
        let t = (get_config_map st k s).1 in
        let (j, got) = Keeps-get_config_map s i in
        elim (Reply-cases
          (st.client.get (get_config_map_namespace st k) (get_config_map_name k) s).0) [
            | inl (o, e) ↦ rw e (j, subst (λ r. Got r t) e got)
            | inr (x, e) ↦ elim (Bool-cases (is_not_found x)) [
              | inl missing ↦
                  rw (e, missing, if◌then◌else◌)
                    (Keeps-get_config_map (create_config_map st k t).1
                      (Keeps-create_config_map t j).0)
              | inr failed ↦ elim (Bool-cases (is_status_error x)) [
                | inl b ↦ rw (e, failed, b, if◌then◌else◌) (j, tt)
                | inr b ↦ rw (e, failed, b, if◌then◌else◌) (j, tt)
              ]
            ]
          ]

    -- Setting a field of what was read writes that field alone.
    pub Keeps-set :
        (o : ConfigMap) (d : Dict String) (f v : String) (t : S)
        → I t
        → Got (ok o) t
        → o.content ≡ some d
        → Sets f v
        → I (st.client.update o.namespace (record o { content = some (insert d f v) }) t).1
    Keeps-set o d f v t i (ns, n, was) content sets =
        let place : MapWrite k Sets (replaced o.namespace o.name (some d) (some (insert d f v))) =
          subst (λ a. MapWrite k Sets (replaced a o.name (some d) (some (insert d f v)))) (sym ns)
            (subst
              (λ a.
                MapWrite k Sets
                  (replaced (get_config_map_namespace st k) a (some d) (some (insert d f v))))
              (sym n) (field_set d f v sets)) in
        (Journal.Keeps-update st.client ver (MapWrite k Sets) l t o.namespace
          (record o { content = some (insert d f v) }) (some d)
          (subst (λ a. ver.Was t a o.name o.version (some d)) (sym ns)
            (subst (λ a. ver.Was t (get_config_map_namespace st k) a o.version (some d)) (sym n)
              (subst (ver.Was t _ _ o.version) content was)))
          place i).0

    Keeps-update_event_once :
        (message : String) → Sets hook_event message → Keeps I Any (update_event_once st k message)
    unfolding update_event_once write_map
    Keeps-update_event_once message sets s i =
        elim (Keeps-cases I Got (create_config_map_and_get st k) s Keeps-load i) [
          | inl (ok o, t, e, j, got) ↦ elim (Option-cases o.content) [
            | inl nil ↦ rw (e, nil, write_map) j
            | inr (d, content) ↦
                rw (e, content, write_map)
                  (Keeps-set o d hook_event message t j got content sets, tt)
          ]
          | inl (err x, t, e, j, got) ↦ rw e (j, tt)
          | inr (p, t, e, j) ↦ rw e j
        ]

    pub Keeps-update_event :
        (status message : String)
        → Sets hook_event message
        → Keeps I Any (update_event st k status message)
    unfolding update_event
    Keeps-update_event status message sets s i =
        let once = update_event_once st k message in
        elim (Keeps-cases I Any (st.retry.on_conflict once) s
          (Journal.Keeps-on_conflict I Any st.retry bound once
            (Keeps-update_event_once message sets))
          i) [ inl (a, t, e, j, _) ↦ rw e (j, tt) | inr (p, t, e, j) ↦ rw e j ]

    module _ (b : Bool) (gate : Sets k.type (gate_status b))
        (told : Sets hook_event (set_message k b)) where
      Keeps-update_gate_once : Keeps I Any (update_gate_once st k b)
      unfolding update_gate_once write_map
      Keeps-update_gate_once s i =
          elim (Keeps-cases I Got (create_config_map_and_get st k) s Keeps-load i) [
            | inl (ok o, t, e, j, got) ↦ elim (Option-cases o.content) [
              | inl nil ↦ rw (e, nil, write_map) j
              | inr (d, content) ↦
                  let set = Keeps-set o d k.type (gate_status b) t j got content gate in
                  elim (Keeps-cases I Any (update_event st k "Updated" (set_message k b)) _
                    (Keeps-update_event "Updated" (set_message k b) told) set) [
                      | inl (a, u, e', j', _) ↦ rw (e, content, write_map, e') (j', tt)
                      | inr (p, u, e', j') ↦ rw (e, content, write_map, e') j'
                    ]
            ]
            | inl (err x, t, e, j, got) ↦ rw e (j, tt)
            | inr (p, t, e, j) ↦ rw e j
          ]

      pub Keeps-update_gate : Keeps I Any (update_gate st k b)
      unfolding update_gate
      Keeps-update_gate s i =
          let once = update_gate_once st k b in
          elim (Keeps-cases I Any (st.retry.on_conflict once) s
            (Journal.Keeps-on_conflict I Any st.retry bound once Keeps-update_gate_once) i) [
              | inl (a, t, e, j, _) ↦ rw e (j, tt)
              | inr (p, t, e, j) ↦ rw e j
            ]

    pub Keeps-is_gate_open : Keeps I Any (is_gate_open st k)
    unfolding is_gate_open
    Keeps-is_gate_open s i =
        elim (Keeps-cases I Got (create_config_map_and_get st k) s Keeps-load i) [
          | inl (ok o, t, e, j, got) ↦ rw e (j, tt)
          | inl (err x, t, e, j, got) ↦ rw e (j, tt)
          | inr (p, t, e, j) ↦ rw e j
        ]
