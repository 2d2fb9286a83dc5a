-- ===== src/Handler/Faults.antt =====
-- What the handlers do with a request that cannot be read, and where a store panics.
use canary_gate.Prelude.{
  String, ◌≡◌, refl, Bool, true, false, Option, none, some, [], ◌∷◌, inl, inr, ◌⊎◌,
}
use canary_gate.Runtime.Exec.{done, panic, nil_pointer, type_assertion}
use canary_gate.Runtime.Dict.{lookup, insert, lookup-insert_self}
use canary_gate.Service.{HookType, hook_event}
use canary_gate.Kube.Api.{other, err}
use canary_gate.Kube.Retry.{IsBounded}
use canary_gate.Store.Defs.{StoreKey, default_value}
use canary_gate.Store.Memory.{
  Any, bool, text, SyncMap, get_key, get_event_key, load_or_store, memory_store, is_gate_open,
  get_last_event,
}
use canary_gate.Store.Crd.{CanaryGateStore, get_canary_gate_namespace, canary_gate_store}
use canary_gate.Store.Crd.Faults.{updates-unreachable}
use canary_gate.Handler.Http.{HandlerState, Request, header_once, status_bad_request}
use canary_gate.Handler.Payload.{CanaryWebhookPayload, CanaryGatePayload}
use canary_gate.Handler.Flagger.{
  FlaggerHandler, gate_key, gate_types, create_gate_handler, confirm_rollout, open_gate, close_gate,
  collect_statuses, status_gate, with_phase, canary_key, event_message,
}
use canary_gate.Handler.Steps.{decode, read_payload-some, read_payload-none}

module _ {S N : Type 0} (h : FlaggerHandler S N) (r : Request) (s : HandlerState S N) where
  -- The state with the header of a bad request, and nothing else changed.
  abbrev pub refused : HandlerState S N
  refused = record s {
    writer = record (s.writer) { status = header_once s.writer.status status_bad_request };
  }

  -- A webhook whose payload cannot be read ends with 400, and touches neither the store nor the
  -- notification client.
  pub webhook-unread :
      (hook : HookType)
      → decode h.json.read_webhook r ≡ none
      → (create_gate_handler h hook r s ≡ (done tt, refused))
        × (confirm_rollout h r s ≡ (done tt, refused))
  unfolding create_gate_handler confirm_rollout
  webhook-unread hook e = (
    rw (read_payload-none h.json.read_webhook r s e) refl,
    rw (read_payload-none h.json.read_webhook r s e) refl,
  )

  -- A request to open, close or show a gate that cannot be read ends with 400, and does not touch the
  -- store.
  pub gate_api-unread :
      decode h.json.read_gate r ≡ none
      → (open_gate h r s ≡ (done tt, refused))
        × (close_gate h r s ≡ (done tt, refused))
        × (status_gate h r s ≡ (done tt, refused))
  unfolding open_gate close_gate status_gate
  gate_api-unread e = (
    rw (read_payload-none h.json.read_gate r s e) refl,
    rw (read_payload-none h.json.read_gate r s e) refl,
    rw (read_payload-none h.json.read_gate r s e) refl,
  )

event_types : (t : HookType) → t ≡ hook_event → gate_types t ≡ t ∷ []
unfolding gate_types
event_types t e = rw e refl

-- Reading the gate of the type `event` from memory, and then the last event: either the value is a
-- text, or it is a Boolean that is read as the text of the event.
abbrev ReadsPanic : StoreKey → StoreKey → SyncMap → Type 0
ReadsPanic k j d =
    (is_gate_open k d ≡ (panic type_assertion, d))
    ⊎ ((b : Bool) × (t : SyncMap) × (is_gate_open k d ≡ (done b, t))
        × (get_last_event j t ≡ (panic type_assertion, t)))

event-ReadsPanic : (k j : StoreKey) (d : SyncMap) → get_event_key j ≡ get_key k → ReadsPanic k j d
unfolding is_gate_open get_last_event
event-ReadsPanic k j d e = go (lookup d (get_key k)) refl
  where
    go : (o : Option Any) → lookup d (get_key k) ≡ o → ReadsPanic k j d
    go none at = inr (
      default_value k,
      insert d (get_key k) (bool (default_value k)),
      rw (at, load_or_store) refl,
      rw (e, lookup-insert_self) refl,
    )
    go (some (text t)) at = inl (rw (at, load_or_store) refl)
    go (some (bool b)) at = inr (b, d, rw (at, load_or_store) refl, rw (e, at) refl)

module _ {N : Type 0} (h : FlaggerHandler SyncMap N)
    (memory : h.store
      ≡ some (record { methods = memory_store; is_canary_gate_store = false })) where
  -- Over the in-memory store, a status request for the type `event` that can be read always panics,
  -- whatever the store holds.
  pub status_gate-event :
      (gate : CanaryGatePayload) (r : Request) (s : HandlerState SyncMap N)
      → decode h.json.read_gate r ≡ some gate
      → gate.type ≡ hook_event
      → (status_gate h r s).0 ≡ panic type_assertion
  unfolding status_gate collect_statuses
  status_gate-event gate r s e event =
      elim (event-ReadsPanic (gate_key gate) (record (gate_key gate) { type = "" }) s.store
        (unfold get_event_key get_key in rw event refl)) [
          | inl run ↦
              rw
                (
                  read_payload-some h.json.read_gate r gate s e,
                  event_types gate.type event,
                  memory,
                  run,
                )
                refl
          | inr (b, t, run, run') ↦
              rw
                (
                  read_payload-some h.json.read_gate r gate s e,
                  event_types gate.type event,
                  memory,
                  run,
                  run',
                )
                refl
        ]

module _ {S F U N : Type 0} (st : CanaryGateStore S F U) (bound : IsBounded st.retry)
    (h : FlaggerHandler S N)
    (crd : h.store
      ≡ some (record { methods = canary_gate_store st; is_canary_gate_store = true })) where
  -- Over the CanaryGate store, a webhook whose payload can be read panics where the API server cannot
  -- be reached, whatever its hook type, and nothing is answered.
  pub webhook-unreachable :
      (canary : CanaryWebhookPayload) (hook : HookType) (r : Request) (s : HandlerState S N) (t : S)
      (problem : String)
      → decode h.json.read_webhook r ≡ some canary
      → st.client.get
          (get_canary_gate_namespace st (canary_key (with_phase canary) ""))
          (with_phase canary).name
          s.store
        ≡ (err (other problem), t)
      → (create_gate_handler h hook r s ≡ (panic nil_pointer, record s { store = t }))
        × (confirm_rollout h r s ≡ (panic nil_pointer, record s { store = t }))
  unfolding create_gate_handler confirm_rollout
  webhook-unreachable canary hook r s t problem e get =
      let key = canary_key (with_phase canary) "" in
      let down =
        (updates-unreachable st key s.store t bound problem true (with_phase canary).phase
          (event_message canary) get).1 in
      (
        rw (read_payload-some h.json.read_webhook r canary s e, crd, down) refl,
        rw (read_payload-some h.json.read_webhook r canary s e, crd, down) refl,
      )
