-- ===== src/Handler/Sequences.antt =====
-- A gate is set by one request and asked for by the next, over any store that keeps the contract.
use canary_gate.Prelude.{◌≡◌, refl, sym, subst, ap, ◌∙◌, Bool, true, false, some}
use canary_gate.Runtime.Exec.{Exec, done}
use canary_gate.Store.Contract.{View, IsGateStore, GateSet, Ends}
use canary_gate.Handler.Http.{HandlerState, Request, new_writer}
use canary_gate.Handler.Payload.{CanaryWebhookPayload, CanaryGatePayload}
use canary_gate.Handler.Flagger.{
  StoreValue, FlaggerHandler, gate_key, canary_key, create_gate_handler, open_gate, close_gate,
}
use canary_gate.Handler.Steps.{decode, answer}
use canary_gate.Handler.Webhook.{create_gate_handler_answers}
use canary_gate.Handler.GateApi.{open_gate_opens, close_gate_closes}

module _ {S N : Type 0} (h : FlaggerHandler S N) (val : StoreValue S) (there : h.store ≡ some val)
    (v : View S) (c : IsGateStore val.methods v) (gate : CanaryGatePayload)
    (canary : CanaryWebhookPayload) (r r' : Request) (s : HandlerState S N) (b b' : Bool)
    (read : decode h.json.read_gate r ≡ some gate)
    (read' : decode h.json.read_webhook r' ≡ some canary)
    (about : canary_key canary gate.type ≡ gate_key gate) (valid : v.IsValid s.store)
    (is_gate : v.IsGate (gate_key gate)) (names : v.IsCanary (canary_key canary ""))
    (w : s.writer ≡ new_writer b) where
  -- The state of the next request: a response that is not begun.
  abbrev next_request : HandlerState S N → HandlerState S N
  next_request t = record t { writer = new_writer b' }

  -- One request, then the webhook of the gate's type in the next one, which gets the answer of a gate
  -- that is open (`o` is true) or closed.
  abbrev pub ThenAnswers : (Request → Exec (HandlerState S N) (Unit {0})) → Bool → Type 0
  ThenAnswers first o =
      (t : HandlerState S N) × (first r s ≡ (done tt, t))
      × Ends (create_gate_handler h gate.type r') (next_request t) tt (λ u. u.writer ≡ answer o b')

  answers_set :
      (first : (Request → Exec (HandlerState S N) (Unit {0}))) (o : Bool) (t : HandlerState S N)
      → first r s ≡ (done tt, t)
      → GateSet v (gate_key gate) o s.store t.store
      → ThenAnswers first o
  answers_set first o t run (valid', at_k, _, _, _) =
      let (u, run', (_, _, written)) =
        create_gate_handler_answers h val there v c canary gate.type r' (next_request t) b' read'
          valid' (subst v.IsGate (sym about) is_gate) names refl in
      (t, run, (u, run', written ∙ ap (λ x. answer x b') (ap (v.gates t.store) about ∙ at_k)))

  -- Over a store that keeps the contract, from a valid state and a response that is not begun: after
  -- the request to open a gate, the webhook of that gate is approved, and after the request to close
  -- it, the webhook is forbidden, where both requests can be read and name the same canary.
  pub set_gate-webhook : ThenAnswers (open_gate h) true × ThenAnswers (close_gate h) false
  set_gate-webhook =
      let (t, run, (set, _)) = open_gate_opens h val there v c gate r s b read valid is_gate w in
      let (u, run', (set', _)) =
        close_gate_closes h val there v c gate r s b read valid is_gate w in
      (answers_set (open_gate h) true t run set, answers_set (close_gate h) false u run' set')
