-- ===== src/Handler/Webhook.antt =====
-- What the webhooks answer, over any store that keeps the contract of the stores.
use canary_gate.Prelude.{
  String, ◌≡◌, refl, sym, ap, Bool, Option, none, some, inl, inr, Option-cases,
}
use canary_gate.Runtime.Exec.{done}
use canary_gate.Runtime.Dict.{Dict}
use canary_gate.Service.{HookType, hook_confirm_rollout}
use canary_gate.Noti.{NotiClient}
use canary_gate.Store.Contract.{View, IsGateStore, SameGates, Ends}
use canary_gate.Handler.Http.{
  HandlerState, Request, new_writer, status_ok, status_bad_request, header_once,
}
use canary_gate.Handler.Payload.{CanaryWebhookPayload}
use canary_gate.Handler.Flagger.{
  StoreValue, FlaggerHandler, with_phase, canary_key, create_meta, send, create_gate_handler,
  confirm_rollout, event,
}
use canary_gate.Handler.Steps.{
  decode, answer, read_payload-some, read_payload-none, log_event_ends, logged_answer_ends,
}

-- The state after a webhook: the gates are as before, and the answer is that of the gate of `hook`.
abbrev pub Answered :
    {S N : Type 0}
    → View S
    → CanaryWebhookPayload
    → HookType
    → HandlerState S N
    → HandlerState S N
    → Type 0
Answered v canary hook s t =
    v.IsValid t.store
    × SameGates v s.store t.store
    × (t.writer ≡ answer (v.gates s.store (canary_key canary hook)) s.writer.broken)

-- What the notification client makes of its state.
abbrev after_send : {N : Type 0} → Option (NotiClient N) → Dict String → N → N
after_send none meta n = n
after_send (some client) meta n =
    (client.send_messages "Please confirm rollout action" hook_confirm_rollout meta n).1

send_lem :
    {S N : Type 0} (noti : Option (NotiClient N)) (meta : Dict String) (s : HandlerState S N)
    → send noti "Please confirm rollout action" hook_confirm_rollout meta s
      ≡ (done tt, record s { noti = after_send noti meta s.noti })
unfolding send
send_lem none meta s = refl
send_lem (some client) meta s = refl

module _ {S N : Type 0} (h : FlaggerHandler S N) (val : StoreValue S) (there : h.store ≡ some val)
    (v : View S) (c : IsGateStore val.methods v) where
  -- Over a store that keeps the contract, from a valid state and a response that is not begun, a
  -- webhook whose payload can be read ends with 200 and `Approved` where the gate of its hook type is
  -- open, with 403 and `Forbidden` where it is closed, and changes no gate.
  pub create_gate_handler_answers :
      (canary : CanaryWebhookPayload) (hook : HookType) (r : Request) (s : HandlerState S N)
      (b : Bool)
      → decode h.json.read_webhook r ≡ some canary
      → v.IsValid s.store
      → v.IsGate (canary_key canary hook)
      → v.IsCanary (canary_key canary "")
      → s.writer ≡ new_writer b
      → Ends (create_gate_handler h hook r) s tt (Answered v canary hook s)
  unfolding create_gate_handler
  create_gate_handler_answers canary hook r s b e valid gate names w =
      let (t, t', logged, run, valid', same) =
        logged_answer_ends h val there v c canary hook s b (λ _. s.noti) valid gate names w in
      (
        record {
          store = t';
          noti = s.noti;
          writer = answer (v.gates s.store (canary_key canary hook)) b;
        },
        rw (read_payload-some h.json.read_webhook r canary s e, logged, run) refl,
        (
          valid',
          same,
          ap (λ u. answer (v.gates s.store (canary_key canary hook)) u.broken) (sym w),
        ),
      )

  -- Over a store that keeps the contract, from a valid state and a response that is not begun, the
  -- confirm-rollout webhook whose payload can be read ends with 200 and `Approved` where its gate is
  -- open, with 403 and `Forbidden` where it is closed, and changes no gate, whatever the notification
  -- client does.
  pub confirm_rollout_answers :
      (canary : CanaryWebhookPayload) (r : Request) (s : HandlerState S N) (b : Bool)
      → decode h.json.read_webhook r ≡ some canary
      → v.IsValid s.store
      → v.IsGate (canary_key canary hook_confirm_rollout)
      → v.IsCanary (canary_key canary "")
      → s.writer ≡ new_writer b
      → Ends (confirm_rollout h r) s tt (Answered v canary hook_confirm_rollout s)
  unfolding confirm_rollout
  confirm_rollout_answers canary r s b e valid gate names w =
      let n = after_send h.noti (create_meta (with_phase canary)) s.noti in
      let (t, t', logged, run, valid', same) =
        logged_answer_ends h val there v c canary hook_confirm_rollout s b (λ _. n) valid gate names
          w in
      (
        record {
          store = t';
          noti = n;
          writer = answer (v.gates s.store (canary_key canary hook_confirm_rollout)) b;
        },
        rw
            (
              read_payload-some h.json.read_webhook r canary s e,
              logged,
              send_lem h.noti (create_meta (with_phase canary)) (record s { store = t }),
              run,
            )
            refl,
        (
          valid',
          same,
          ap (λ u. answer (v.gates s.store (canary_key canary hook_confirm_rollout)) u.broken)
              (sym w),
        ),
      )

  -- Over a store that keeps the contract, from a valid state and a response that is not begun, the
  -- event webhook ends with 200 where its payload can be read and with 400 where it cannot, and changes
  -- no gate.
  pub event_answers :
      (r : Request) (s : HandlerState S N) (b : Bool)
      → v.IsValid s.store
      → ((canary : CanaryWebhookPayload)
          → decode h.json.read_webhook r ≡ some canary
          → v.IsCanary (canary_key canary ""))
      → s.writer ≡ new_writer b
      → Ends (event h r) s tt (λ t.
        v.IsValid t.store
        × SameGates v s.store t.store
        × (t.writer.status
            ≡ some (elim (decode h.json.read_webhook r) [
              | none ↦ status_bad_request
              | some _ ↦ status_ok
            ])))
  unfolding event
  event_answers r s b valid names w = elim (Option-cases (decode h.json.read_webhook r)) [
    | inl unread ↦ (
      record s {
        writer = record (s.writer) {
          status = header_once (header_once s.writer.status status_bad_request) status_ok;
        };
      },
      rw (read_payload-none h.json.read_webhook r s unread) refl,
      (valid, (λ j g. refl), rw (unread, w) refl),
    )
    | inr (canary, e) ↦
        let (t, logged, valid', same) =
          log_event_ends h val there v c canary s valid (names canary e) in
        (
          record s {
            store = t;
            writer = record (s.writer) { status = header_once s.writer.status status_ok };
          },
          rw (read_payload-some h.json.read_webhook r canary s e, logged) refl,
          (valid', same, rw (e, w) refl),
        )
  ]
