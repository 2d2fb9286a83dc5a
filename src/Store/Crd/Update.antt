-- ===== src/Store/Crd/Update.antt =====
-- What an update of a gate and of an event writes, while the API server is reliable.
use canary_gate.Prelude.{
  String, ◌≡◌, refl, sym, ap, ◌∙◌, subst, none, some, inl, inr, ◌==◌, Bool-cases, if◌then◌else◌,
}
use canary_gate.Runtime.Exec.{Exec, done}
use canary_gate.Api.{CanaryGate}
use canary_gate.Kube.Api.{ok, Object, same, same_self}
use canary_gate.Kube.Retry.{settle_done}
use canary_gate.Store.Defs.{StoreKey}
use canary_gate.Store.Contract.{Ends}
use canary_gate.Store.Crd.{
  CanaryGateStore, with_content, create_canary_gate_and_get, update_gate_object, record_event,
  event_gate, update_event_once, update_event,
}
use canary_gate.Store.Crd.Place
use canary_gate.Store.Crd.Place.{
  IsHealthy, KeepsRequired, IsValid, Put, stored_for, gate_at, gate_in, HasGate,
}

module _ {S F U : Type 0} (st : CanaryGateStore S F U) (h : IsHealthy st) where
  -- The gate `g` written over the object `o`.
  module _ (s : S) (k : StoreKey) (o : Object U) (g₀ g : CanaryGate F) (valid : IsValid st h s)
      (found : stored_for st h s k ≡ some o)
      (from : st.converter.from_unstructured o.content ≡ ok g₀)
      (target : g.spec.target ≡ g₀.spec.target) (flagger : g.spec.flagger ≡ g₀.spec.flagger) where
    keeps : KeepsRequired st.converter o.content (h.faithful.encode g)
    keeps = (g₀, g, from, h.faithful.from_encode g, target, flagger)

    abbrev written : Object U
    written = with_content (with_content o g₀) (h.faithful.encode g)

    abbrev pub updated : S
    updated = (st.client.update (Place.ns_of st h k) written s).1

    named : o.name ≡ k.name
    named = (h.server.stored_at s (Place.ns_of st h k) k.name o found).1

    found_at : h.server.stored s (Place.ns_of st h k) o.name ≡ some o
    found_at = ap (h.server.stored s (Place.ns_of st h k)) named ∙ found

    abbrev pub stored_object : Object U
    stored_object = record written {
      namespace = Place.ns_of st h k;
      version = h.server.next_version s;
    }

    updated_stored :
        (ns n : String)
        → h.server.stored updated ns n ≡ (
            if same (Place.ns_of st h k) k.name ns n
            then some stored_object
            else h.server.stored s ns n)
    updated_stored ns n =
        h.server.update_stored s (Place.ns_of st h k) written o found_at refl keeps ns n
        ∙ ap
            (λ a.
              if same (Place.ns_of st h k) a ns n
              then some stored_object
              else h.server.stored s ns n)
            named

    pub updated_at : stored_for st h updated k ≡ some stored_object
    updated_at =
        rw (updated_stored (Place.ns_of st h k) k.name, same_self (Place.ns_of st h k) k.name) refl

    pub updated-Put : Put st h s updated k g
    updated-Put =
        Place.put st h s updated k stored_object g valid (h.faithful.from_encode g) updated_stored

    -- The whole of the write: the update is accepted, and what follows it runs in the new state.
    pub update_run :
        (and_then : Exec S (Unit {0})) (t : S)
        → and_then updated ≡ (done tt, t)
        → update_gate_object st k (with_content o g₀) g and_then s ≡ (done none, t)
    unfolding update_gate_object
    update_run and_then t run =
        rw
          (
            h.faithful.to_encode g,
            update_gate_object,
            run,
            h.server.update_accepted s (Place.ns_of st h k) written o found_at refl keeps,
          )
          refl

  -- The recorder leaves the gates alone.
  Put-record :
      (s w : S) (k : StoreKey) (g : CanaryGate F) (gate : Object (CanaryGate F)) (status m : String)
      → Put st h s w k g
      → Put st h s (st.recorder gate status m w) k g
  Put-record s w k g gate status m p = record {
    valid = record {
      has_gate = λ j.
          subst (HasGate st h) (sym (h.quiet gate status m w (Place.ns_of st h j) j.name))
            (p.valid.has_gate j);
      is_there = λ j managed.
          let (o, found) = p.valid.is_there j managed in
          (o, h.quiet gate status m w (Place.ns_of st h j) j.name ∙ found);
    };
    gates =
        λ j. ap (gate_in st h) (h.quiet gate status m w (Place.ns_of st h j) j.name) ∙ p.gates j;
  }

  record_ends :
      (s w : S) (k : StoreKey) (o : Object U) (g : CanaryGate F) (status m : String)
      → stored_for st h w k ≡ some o
      → st.converter.from_unstructured o.content ≡ ok g
      → Put st h s w k g
      → Ends (record_event st k status m) w tt (λ t. Put st h s t k g)
  unfolding record_event
  record_ends s w k o g status m found content p = elim (Bool-cases (m == "")) [
    | inl quiet ↦ (w, rw (quiet, if◌then◌else◌) refl, p)
    | inr loud ↦ (
      st.recorder (with_content o g) status m w,
      rw (loud, if◌then◌else◌, Place.get_found st h w k o g found content) refl,
      Put-record s w k g (with_content o g) status m p,
    )
  ]

  -- The event of a canary whose gate was loaded in `u`.
  pub event_loaded :
      (s u : S) (k : StoreKey) (o : Object U) (g : CanaryGate F) (status m : String)
      → create_canary_gate_and_get st k s ≡ (done (ok (some (with_content o g))), u)
      → IsValid st h u
      → stored_for st h u k ≡ some o
      → st.converter.from_unstructured o.content ≡ ok g
      → Ends (update_event st k status m) s tt (λ t. Put st h u t k (event_gate st k status m g))
  unfolding update_event event_gate
  event_loaded s u k o g status m load v found from =
      let g' = event_gate st k status m g in
      let w : S = updated u k o g g' v found from refl refl in
      let (t, run, p) =
        record_ends u w k (stored_object u k o g g' v found from refl refl) g' status m
          (updated_at u k o g g' v found from refl refl) (h.faithful.from_encode g')
          (updated-Put u k o g g' v found from refl refl) in
      let once : update_event_once st k status m s ≡ (done none, t) =
        unfold update_event_once in
        rw load (update_run u k o g g' v found from refl refl (record_event st k status m) t run) in
      (t, rw (settle_done st.retry h.bound (update_event_once st k status m) s once) refl, p)
