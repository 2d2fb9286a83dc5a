-- ===== src/Handler/Steps.antt =====
-- The steps that the handlers share: reading the payload, calling the store, recording the event,
-- writing the response.
use canary_gate.Prelude.{
  ℕ, String, ◌++◌, ◌≡◌, refl, sym, subst, ap, ◌∙◌, Bool, Bool-cases, inl, inr, true, false, Option,
  none, some, arith, if◌then◌else◌,
}
use canary_gate.Runtime.Exec.{Exec, done}
use canary_gate.Service.{HookType}
use canary_gate.Store.Defs.{Store}
use canary_gate.Store.Contract.{View, IsGateStore, SameGates}
use canary_gate.Handler.Http.{
  HandlerState, Request, ResponseWriter, new_writer, write_bytes, header_once, status_bad_request,
  status_ok, status_forbidden,
}
use canary_gate.Handler.Payload.{CanaryWebhookPayload, read_payload}
use canary_gate.Handler.Flagger.{
  StoreValue, FlaggerHandler, with_phase, event_message, canary_key, call_store, log_event,
  response_webhook,
}

-- The payload of a request, if its body can be read and decoded.
abbrev pub decode : {I : Type 0} → (String → Option I) → Request → Option I
decode unmarshal r = elim r.body [ none ↦ none | some body ↦ unmarshal body ]

-- What is sent where `text` is written with the header `code`.
abbrev pub response : ℕ → String → Bool → ResponseWriter
response code text broken = record {
  status = some code;
  body = if broken then "" else "" ++ text;
  broken = broken;
}

-- The answer to a webhook: approved where the gate is open, and forbidden where it is closed.
abbrev pub answer : Bool → Bool → ResponseWriter
answer is_open broken =
    if is_open
    then response status_ok "Approved" broken
    else response status_forbidden "Forbidden" broken

module _ {S N : Type 0} where
  pub read_payload-some :
      {I : Type 0} (unmarshal : String → Option I) (r : Request) (i : I) (s : HandlerState S N)
      → decode unmarshal r ≡ some i
      → read_payload unmarshal r s ≡ (done (some i), s)
  unfolding read_payload
  read_payload-some unmarshal r i s e = ground arith

  pub read_payload-none :
      {I : Type 0} (unmarshal : String → Option I) (r : Request) (s : HandlerState S N)
      → decode unmarshal r ≡ none
      → read_payload unmarshal r s ≡ (
        done none,
        record s {
          writer = record (s.writer) { status = header_once s.writer.status status_bad_request };
        },
      )
  unfolding read_payload
  read_payload-none unmarshal r s e = ground arith

  pub write_bytes_lem :
      (text : String) (code : ℕ) (s : HandlerState S N) (b : Bool)
      → s.writer ≡ new_writer b
      → write_bytes text code s ≡ (done tt, record s { writer = response code text b })
  unfolding write_bytes
  write_bytes_lem text code s b e =
      let at : s ≡ record s { writer = new_writer b } = λ i. record s { writer = e i } in
      ap (write_bytes text code) at ∙ go b
    where
      go :
          (c : Bool)
          → write_bytes text code (record s { writer = new_writer c })
            ≡ (done tt, record s { writer = response code text c })
      go true = refl
      go false = refl

-- A handler whose store keeps the contract of the stores, as the view `v`.
module _ {S N : Type 0} (h : FlaggerHandler S N) (val : StoreValue S) (there : h.store ≡ some val)
    (v : View S) (c : IsGateStore val.methods v) where
  -- A call of the store that ends.
  pub call_store-done :
      {A : Type 0} (call : Store S → Exec S A) (s : HandlerState S N) (a : A) (t : S)
      → call val.methods s.store ≡ (done a, t)
      → call_store {N = N} h.store call s ≡ (done a, record s { store = t })
  call_store-done call s a t e = rw (there, e) refl

  with_phase-key :
      (canary : CanaryWebhookPayload) (hook : HookType)
      → canary_key (with_phase canary) hook ≡ canary_key canary hook
  unfolding with_phase
  with_phase-key canary hook = ground arith

  -- Recording the event changes no gate.
  pub log_event_ends :
      (canary : CanaryWebhookPayload) (s : HandlerState S N)
      → v.IsValid s.store
      → v.IsCanary (canary_key canary "")
      → (t : S) × (log_event h canary s ≡ (done (with_phase canary), record s { store = t }))
        × v.IsValid t
        × SameGates v s.store t
  unfolding log_event
  log_event_ends canary s valid names = elim (Bool-cases val.is_canary_gate_store) [
    | inl is_canary ↦
        let (t, run, (valid', _, same, _)) =
          c.update_event_sets s.store (canary_key (with_phase canary) "") (with_phase canary).phase
            (event_message canary) valid
            (subst v.IsCanary (sym (with_phase-key canary "")) names) in
        (t, rw (there, is_canary, if◌then◌else◌, run) refl, valid', same)
    | inr other ↦ (s.store, rw (there, other, if◌then◌else◌) refl, valid, λ j g. refl)
  ]

  write_answer :
      (is_open b : Bool) (s : HandlerState S N)
      → s.writer ≡ new_writer b
      → (if is_open
            then write_bytes "Approved" status_ok
            else write_bytes "Forbidden" status_forbidden)
          s
        ≡ (done tt, record s { writer = answer is_open b })
  write_answer true b s w = write_bytes_lem "Approved" status_ok s b w
  write_answer false b s w = write_bytes_lem "Forbidden" status_forbidden s b w

  -- Answering a webhook from the gate of its hook type.
  pub response_webhook_ends :
      (canary : CanaryWebhookPayload) (hook : HookType) (s : HandlerState S N) (b : Bool)
      → v.IsValid s.store
      → v.IsGate (canary_key canary hook)
      → s.writer ≡ new_writer b
      → (t : S) × (response_webhook h canary hook s ≡ (
        done tt,
        record s { store = t; writer = answer (v.gates s.store (canary_key canary hook)) b },
      ))
        × v.IsValid t
        × SameGates v s.store t
  unfolding response_webhook
  response_webhook_ends canary hook s b valid gate w =
      let key = canary_key canary hook in
      let (t, run, (valid', same, _)) = c.is_gate_open_reads s.store key valid gate in
      (
        t,
        rw (there, run) (write_answer (v.gates s.store key) b (record s { store = t }) w),
        valid',
        same,
      )

  -- The event is recorded, other steps that leave the store and the response alone run, and the
  -- webhook is answered: the answer is that of the gate before.
  pub logged_answer_ends :
      (canary : CanaryWebhookPayload) (hook : HookType) (s : HandlerState S N) (b : Bool)
      (n : S → N)
      → v.IsValid s.store
      → v.IsGate (canary_key canary hook)
      → v.IsCanary (canary_key canary "")
      → s.writer ≡ new_writer b
      → (t t' : S) × (log_event h canary s ≡ (done (with_phase canary), record s { store = t }))
        × (response_webhook h (with_phase canary) hook (record s { store = t; noti = n t }) ≡ (
          done tt,
          record {
            store = t';
            noti = n t;
            writer = answer (v.gates s.store (canary_key canary hook)) b;
          },
        ))
        × v.IsValid t'
        × SameGates v s.store t'
  logged_answer_ends canary hook s b n valid gate names w =
      let (t, logged, valid', same) = log_event_ends canary s valid names in
      let (t', run, valid'', same') =
        response_webhook_ends (with_phase canary) hook (record s { store = t; noti = n t }) b valid'
          (subst v.IsGate (sym (with_phase-key canary hook)) gate) w in
      let kept : v.gates t (canary_key (with_phase canary) hook)
          ≡ v.gates s.store (canary_key canary hook) =
        ap (v.gates t) (with_phase-key canary hook) ∙ same (canary_key canary hook) gate in
      (
        t,
        t',
        logged,
        run ∙ ap (λ g. (done tt, record { store = t'; noti = n t; writer = answer g b })) kept,
        valid'',
        λ j g. same' j g ∙ same j g,
      )
