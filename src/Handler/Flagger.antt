-- ===== src/Handler/Flagger.antt =====
-- handler/flagger.go: the webhooks that Flagger calls, and the API that opens and closes gates.
use canary_gate.Prelude.{
  String, ◌++◌, Bool, true, false, Option, none, some, List, [], ◌∷◌, ◌==◌, append, find?,
  if◌then◌else◌,
}
use canary_gate.Runtime.Exec.{Exec, done, pure, raise, ◌>>=◌, ◌>>◌, nil_pointer}
use canary_gate.Runtime.Dict.{Dict, lookup, insert}
use canary_gate.Service.{
  HookType, hook_rollout, hook_pre_rollout, hook_post_rollout, hook_confirm_rollout,
  hook_confirm_promotion, hook_event, hook_rollback, hook_confirm_traffic_increase, hook_all,
  phase_succeeded,
}
use canary_gate.Noti.{NotiClient}
use canary_gate.Store.Defs.{Store, StoreKey, gate_open_text, gate_close_text, gate_status}
use canary_gate.Handler.Http.{
  HandlerState, Request, write_bytes, write_header, on_store, status_ok, status_forbidden,
}
use canary_gate.Handler.Payload.{
  CanaryWebhookPayload, CanaryGatePayload, StatusMap, Json, read_payload, write_payload,
}

-- An interface value of the type `store.Store`: its methods, and whether its dynamic type is
-- `*store.CanaryGateStore`.
pub record StoreValue (S : Type 0) : Type 0 where
  pub methods : Store S
  pub is_canary_gate_store : Bool

-- A nil interface is `none`.
pub record FlaggerHandler (S N : Type 0) : Type 0 where
  pub noti : Option (NotiClient N)
  pub store : Option (StoreValue S)
  pub json : Json

abbrev pub metadata_event_message : String
metadata_event_message = "eventMessage"

unfoldable pub create_key : String → String → String
create_key namespace name = namespace ++ ("/" ++ name)

-- `m[k]` of a map: the zero value where the key is missing.
abbrev pub or_zero : {A : Type 0} → A → Option A → A
or_zero zero none = zero
or_zero zero (some a) = a

-- `strings.Contains`
abbrev pub contains : String → String → Bool
contains s t = elim (find? s t) [ none ↦ false | some _ ↦ true ]

unfoldable pub create_response : StatusMap → String → String → HookType → String → StatusMap
create_response result namespace name t status =
    let key = create_key namespace name in
    insert result key (
      append (or_zero [] (lookup result key))
        (record { type = t; name = name; namespace = namespace; status = status }))

-- `maps.Copy`
unfoldable pub copy_all : Dict String → Dict String → Dict String
copy_all m [] = m
copy_all m ((k, v) ∷ rest) = copy_all (insert m k v) rest

-- The metadata of a notification: the canary's own over its name and namespace.
unfoldable pub create_meta : CanaryWebhookPayload → Dict String
unfolding copy_all
create_meta canary =
    copy_all (("name", canary.name) ∷ ("namespace", canary.namespace) ∷ []) canary.metadata

unfoldable pub event_message : CanaryWebhookPayload → String
event_message canary = or_zero "" (lookup canary.metadata metadata_event_message)

-- The canary as `logEvent` leaves it: its phase is set where the promotion is completed.
unfoldable pub with_phase : CanaryWebhookPayload → CanaryWebhookPayload
with_phase canary =
    if contains (event_message canary) "Promotion completed!"
    then record canary { phase = phase_succeeded }
    else canary

abbrev pub gate_key : CanaryGatePayload → StoreKey
gate_key gate = record { namespace = gate.namespace; name = gate.name; type = gate.type }

abbrev pub canary_key : CanaryWebhookPayload → HookType → StoreKey
canary_key canary hook = record { namespace = canary.namespace; name = canary.name; type = hook }

unfoldable pub gate_types : HookType → List HookType
gate_types t =
    if t == hook_all
    then hook_confirm_rollout ∷ hook_pre_rollout ∷ hook_rollout ∷ hook_confirm_traffic_increase
      ∷ hook_confirm_promotion ∷ hook_post_rollout ∷ hook_rollback ∷ []
    else t ∷ []

module _ {S N : Type 0} where
  -- A method call on an interface value: nil panics.
  abbrev pub call_store :
      {A : Type 0} → Option (StoreValue S) → (Store S → Exec S A) → Exec (HandlerState S N) A
  call_store none call = raise nil_pointer
  call_store (some v) call = on_store (call v.methods)

  unfoldable pub log_to :
      Option (StoreValue S) → CanaryWebhookPayload → String → Exec (HandlerState S N) (Unit {0})
  log_to none canary message = pure tt
  log_to (some v) canary message =
      if v.is_canary_gate_store
      then on_store (v.methods.update_event (canary_key canary "") canary.phase message)
      else pure tt

  unfoldable pub send :
      Option (NotiClient N) → String → HookType → Dict String → Exec (HandlerState S N) (Unit {0})
  send none message hook meta s = (done tt, s)
  send (some client) message hook meta s =
      (done tt, record s { noti = (client.send_messages message hook meta s.noti).1 })

module _ {S N : Type 0} (h : FlaggerHandler S N) where
  -- A method call on the field `store`.
  abbrev pub with_store : {A : Type 0} → (Store S → Exec S A) → Exec (HandlerState S N) A
  with_store call = call_store h.store call

  -- The event is recorded only where the store is a `*CanaryGateStore`.
  unfoldable pub log_event : CanaryWebhookPayload → Exec (HandlerState S N) CanaryWebhookPayload
  unfolding log_to
  log_event canary = do
    log_to h.store (with_phase canary) (event_message canary)
    pure (with_phase canary)

  unfoldable pub response_webhook :
      CanaryWebhookPayload → HookType → Exec (HandlerState S N) (Unit {0})
  response_webhook canary hook = do
    approved ← with_store (λ st. st.is_gate_open (canary_key canary hook))
    if approved then write_bytes "Approved" status_ok else write_bytes "Forbidden" status_forbidden

  unfoldable pub create_gate_handler : HookType → Request → Exec (HandlerState S N) (Unit {0})
  unfolding read_payload log_event response_webhook
  create_gate_handler hook r = do
    p ← read_payload h.json.read_webhook r
    elim p [
      | none ↦ pure tt
      | some canary ↦ do canary' ← log_event canary; response_webhook canary' hook
    ]

  -- The notification of `ConfirmRollout`: an error is only logged.
  unfoldable pub notify : String → HookType → Dict String → Exec (HandlerState S N) (Unit {0})
  unfolding send
  notify message hook meta = send h.noti message hook meta

  unfoldable pub confirm_rollout : Request → Exec (HandlerState S N) (Unit {0})
  unfolding read_payload log_event response_webhook notify
  confirm_rollout r = do
    p ← read_payload h.json.read_webhook r
    elim p [
      | none ↦ pure tt
      | some canary ↦ do
        canary' ← log_event canary
        notify "Please confirm rollout action" hook_confirm_rollout (create_meta canary')
        response_webhook canary' hook_confirm_rollout
    ]

  abbrev pub pre_rollout : Request → Exec (HandlerState S N) (Unit {0})
  pre_rollout = create_gate_handler hook_pre_rollout

  abbrev pub rollout : Request → Exec (HandlerState S N) (Unit {0})
  rollout = create_gate_handler hook_rollout

  abbrev pub confirm_traffic_increase : Request → Exec (HandlerState S N) (Unit {0})
  confirm_traffic_increase = create_gate_handler hook_confirm_traffic_increase

  abbrev pub confirm_promotion : Request → Exec (HandlerState S N) (Unit {0})
  confirm_promotion = create_gate_handler hook_confirm_promotion

  abbrev pub post_rollout : Request → Exec (HandlerState S N) (Unit {0})
  post_rollout = create_gate_handler hook_post_rollout

  abbrev pub rollback : Request → Exec (HandlerState S N) (Unit {0})
  rollback = create_gate_handler hook_rollback

  -- The header is written also after a bad request, where it is superfluous.
  unfoldable pub event : Request → Exec (HandlerState S N) (Unit {0})
  unfolding read_payload log_event write_header
  event r = do
    p ← read_payload h.json.read_webhook r
    elim p [ none ↦ pure tt | some canary ↦ do _ ← log_event canary; pure tt ]
    write_header status_ok

  unfoldable pub response_api : CanaryGatePayload → String → Exec (HandlerState S N) (Unit {0})
  unfolding write_payload create_response
  response_api gate status =
      write_payload h.json.write_statuses
        (create_response [] gate.namespace gate.name gate.type status) status_ok

  unfoldable pub open_gate : Request → Exec (HandlerState S N) (Unit {0})
  unfolding read_payload response_api
  open_gate r = do
    p ← read_payload h.json.read_gate r
    elim p [
      | none ↦ pure tt
      | some gate ↦ do
        with_store (λ st. st.gate_open (gate_key gate))
        response_api gate gate_open_text
    ]

  unfoldable pub close_gate : Request → Exec (HandlerState S N) (Unit {0})
  unfolding read_payload response_api
  close_gate r = do
    p ← read_payload h.json.read_gate r
    elim p [
      | none ↦ pure tt
      | some gate ↦ do
        with_store (λ st. st.gate_close (gate_key gate))
        response_api gate gate_close_text
    ]

  -- The loop of `StatusGate` over the gate types.
  unfoldable pub collect_statuses :
      CanaryGatePayload → List HookType → StatusMap → Exec (HandlerState S N) StatusMap
  collect_statuses gate [] result = pure result
  collect_statuses gate (t ∷ rest) result = do
    is_open ← with_store (λ st. st.is_gate_open (record (gate_key gate) { type = t }))
    collect_statuses gate rest
        (create_response result gate.namespace gate.name t (gate_status is_open))

  unfoldable pub status_gate : Request → Exec (HandlerState S N) (Unit {0})
  unfolding read_payload write_payload
  status_gate r = do
    p ← read_payload h.json.read_gate r
    elim p [
      | none ↦ pure tt
      | some gate ↦ do
        result ← collect_statuses gate (gate_types gate.type) []
        event ← with_store (λ st. st.get_last_event (record (gate_key gate) { type = "" }))
        write_payload h.json.write_statuses
            (create_response result gate.namespace gate.name hook_event event) status_ok
    ]
