-- ===== src/Store/Crd/Faults.antt =====
-- What the CanaryGate store does where the API server refuses a call or cannot be reached.
use canary_gate.Prelude.{String, ◌≡◌, refl, Bool, false, some}
use canary_gate.Runtime.Exec.{done, panic, nil_pointer}
use canary_gate.Kube.Api.{ApiError, not_found, status, other, ok, err, is_not_found}
use canary_gate.Kube.Retry.{IsBounded, settle_panic, settle_missing, settle_status}
use canary_gate.Store.Defs.{StoreKey, default_value}
use canary_gate.Store.Crd.Changes.{no_gates}
use canary_gate.Store.Crd.{
  CanaryGateStore, new_canary_gate, create_canary_gate, gate_value, get_canary_gate_namespace,
  update_event_once, update_event, update_canary_gate_once, update_canary_gate, is_gate_open,
}

module _ {S F U : Type 0} (st : CanaryGateStore S F U) (k : StoreKey) (s t : S) where
  -- Where the resource cannot be read, for any error but that it is not there, a gate reads as the
  -- default of its type, and nothing is created.
  pub is_gate_open-denied :
      (e : ApiError)
      → st.client.get (get_canary_gate_namespace st k) k.name s ≡ (err e, t)
      → is_not_found e ≡ false
      → is_gate_open st k s ≡ (done (default_value k), t)
  unfolding is_gate_open gate_value
  is_gate_open-denied not_found get found = cc
  is_gate_open-denied _ get found = rw get refl

  module _ (bound : IsBounded st.retry) (text : String) where
    -- Where the API server refuses to read the resource, setting a gate and recording an event end
    -- without a panic, and nothing is written.
    pub updates-refused :
        (b : Bool) (reason message : String)
        → st.client.get (get_canary_gate_namespace st k) k.name s ≡ (err (status text), t)
        → (update_canary_gate st k b s ≡ (done tt, t))
          × (update_event st k reason message s ≡ (done tt, t))
    unfolding update_canary_gate update_event
    updates-refused b reason message get =
        let gate : update_canary_gate_once st k b s ≡ (done (some (status text)), t) =
          unfold update_canary_gate_once in rw get refl in
        let event : update_event_once st k reason message s ≡ (done (some (status text)), t) =
          unfold update_event_once in rw get refl in
        (
          rw (settle_status st.retry bound (update_canary_gate_once st k b) s text gate) refl,
          rw (settle_status st.retry bound (update_event_once st k reason message) s text event)
              refl,
        )

    -- Where the API server cannot be reached, setting a gate and recording an event panic: the nil gate
    -- that comes back with no error is dereferenced.
    pub updates-unreachable :
        (b : Bool) (reason message : String)
        → st.client.get (get_canary_gate_namespace st k) k.name s ≡ (err (other text), t)
        → (update_canary_gate st k b s ≡ (panic nil_pointer, t))
          × (update_event st k reason message s ≡ (panic nil_pointer, t))
    unfolding update_canary_gate update_event
    updates-unreachable b reason message get =
        let gate : update_canary_gate_once st k b s ≡ (panic nil_pointer, t) =
          unfold update_canary_gate_once in rw get refl in
        let event : update_event_once st k reason message s ≡ (panic nil_pointer, t) =
          unfold update_event_once in rw get refl in
        (
          rw (settle_panic st.retry bound (update_canary_gate_once st k b) s nil_pointer gate) refl,
          rw
              (settle_panic st.retry bound (update_event_once st k reason message) s nil_pointer
                event)
              refl,
        )

    -- Where the resource is missing and the API server refuses the object that is sent to create it, a
    -- CanaryGate in which no gate is set, with an empty target and without a Flagger spec, then
    -- setting a gate, either way, and recording an event end without a panic in the state that the three
    -- requests left, where the resource is missing still; asking for a gate gives the default of its
    -- type, and leaves the same state.
    pub updates-missing :
        (b : Bool) (reason message : String) (u : U) (t' : S)
        → st.client.get (get_canary_gate_namespace st k) k.name s ≡ (err not_found, t)
        → st.converter.to_unstructured (no_gates st.no_flagger) ≡ ok u
        → st.client.create
            (get_canary_gate_namespace st k)
            (record {
              namespace = get_canary_gate_namespace st k;
              name = k.name;
              version = 0;
              content = u;
            })
            t
          ≡ (err (status text), t')
        → st.client.get (get_canary_gate_namespace st k) k.name t' ≡ (err not_found, t')
        → (update_canary_gate st k b s ≡ (done tt, t'))
          × (update_event st k reason message s ≡ (done tt, t'))
          × (is_gate_open st k s ≡ (done (default_value k), t'))
    unfolding update_canary_gate update_event is_gate_open new_canary_gate
    updates-missing b reason message u t' get object refused again =
        let gate : update_canary_gate_once st k b s ≡ (done (some not_found), t') =
          unfold update_canary_gate_once new_canary_gate in
          rw (get, create_canary_gate, object, refused, again) refl in
        let event : update_event_once st k reason message s ≡ (done (some not_found), t') =
          unfold update_event_once new_canary_gate in
          rw (get, create_canary_gate, object, refused, again) refl in
        (
          rw (settle_missing st.retry bound (update_canary_gate_once st k b) s gate) refl,
          rw (settle_missing st.retry bound (update_event_once st k reason message) s event) refl,
          rw (get, create_canary_gate, object, refused, again) refl,
        )
