-- ===== src/Tests/Handlers.antt =====
-- The theorems on the handlers, applied to requests to a server over the in-memory store.
use canary_gate.Prelude.{◌++◌, ◌≡◌, refl, subst, some_inj, true, false, some, [], ◌∷◌}
use canary_gate.Runtime.Exec.{panic, type_assertion}
use canary_gate.Service.{hook_rollout}
use canary_gate.Store.Contract.{Ends, SameGates, SameEvents}
use canary_gate.Store.Memory.{new_memory_store}
use canary_gate.Store.Memory.Gates.{IsValid, view, gate_of, event_of, memory_store-IsGateStore}
use canary_gate.Store.Memory.Naming.{HasPlainNames}
use canary_gate.Store.Memory.Histories.{new_memory_store-IsValid}
use canary_gate.Handler.Http.{status_ok}
use canary_gate.Handler.Flagger.{
  canary_key, create_gate_handler, event, open_gate, close_gate, status_gate,
}
use canary_gate.Handler.Webhook.{Answered, create_gate_handler_answers, event_answers}
use canary_gate.Handler.GateApi.{encoded_response}
use canary_gate.Handler.Statuses.{shown_statuses, status_gate_shows}
use canary_gate.Handler.Sequences.{ThenAnswers, set_gate-webhook}
use canary_gate.Handler.Faults.{status_gate-event}
use canary_gate.Controller.Webhooks.{CanaryWebhook, FlaggerHook, rollout_hook}
use canary_gate.Server.Routes.{Served, gate_webhooks-Served}
use canary_gate.Tests.Data.{
  gate_payload, event_payload, rollout_key, canary_payload, test_json, memory_value, memory_handler,
  memory_state, request_with, app-Lacks, pod-Lacks, rollout_key-IsGate, rollout_types-AllGates,
}

create_gate_handler_answers_example :
    Ends
      (create_gate_handler memory_handler hook_rollout (request_with "canary"))
      memory_state
      tt
      (Answered view canary_payload hook_rollout memory_state)
create_gate_handler_answers_example =
    create_gate_handler_answers memory_handler memory_value refl view memory_store-IsGateStore
      canary_payload hook_rollout (request_with "canary") memory_state false refl
      new_memory_store-IsValid rollout_key-IsGate (app-Lacks, pod-Lacks) refl

event_answers_example : Ends (event memory_handler (request_with "canary")) memory_state tt (λ t.
    IsValid t.store
    × SameGates view memory_state.store t.store
    × (t.writer.status ≡ some status_ok))
event_answers_example =
    event_answers memory_handler memory_value refl view memory_store-IsGateStore
      (request_with "canary") memory_state false new_memory_store-IsValid
      (λ canary e. subst (λ c. HasPlainNames (canary_key c "")) (some_inj e) (app-Lacks, pod-Lacks))
      refl

status_gate_shows_example :
    Ends (status_gate memory_handler (request_with "gate")) memory_state tt (λ t.
      IsValid t.store
      × SameGates view new_memory_store t.store
      × SameEvents view new_memory_store t.store
      × (t.writer
          ≡ encoded_response
              (test_json.write_statuses (
                shown_statuses "app" "pod"
                  (λ x. gate_of new_memory_store (record rollout_key { type = x }))
                  (event_of new_memory_store (record rollout_key { type = "" }))
                  ("rollout" ∷ [])))
              false))
status_gate_shows_example =
    status_gate_shows memory_handler memory_value refl view memory_store-IsGateStore gate_payload
      (request_with "gate") memory_state false refl new_memory_store-IsValid rollout_types-AllGates
      (app-Lacks, pod-Lacks) refl

set_gate-webhook_example :
    ThenAnswers memory_handler memory_value refl view memory_store-IsGateStore gate_payload
      canary_payload
      (request_with "gate")
      (request_with "canary")
      memory_state
      false
      false
      refl
      refl
      refl
      new_memory_store-IsValid
      rollout_key-IsGate
      (app-Lacks, pod-Lacks)
      refl
      (open_gate memory_handler)
      true
    × ThenAnswers memory_handler memory_value refl view memory_store-IsGateStore gate_payload
        canary_payload
        (request_with "gate")
        (request_with "canary")
        memory_state
        false
        false
        refl
        refl
        refl
        new_memory_store-IsValid
        rollout_key-IsGate
        (app-Lacks, pod-Lacks)
        refl
        (close_gate memory_handler)
        false
set_gate-webhook_example =
    set_gate-webhook memory_handler memory_value refl view memory_store-IsGateStore gate_payload
      canary_payload (request_with "gate") (request_with "canary") memory_state false false refl
      refl refl new_memory_store-IsValid rollout_key-IsGate (app-Lacks, pod-Lacks) refl

status_gate-event_example :
    (status_gate memory_handler (request_with "event") memory_state).0 ≡ panic type_assertion
status_gate-event_example =
    status_gate-event memory_handler refl event_payload (request_with "event") memory_state refl
      refl

abbrev rollout_webhook : CanaryWebhook
rollout_webhook = record {
  name = hook_rollout;
  type = rollout_hook;
  url = "http://gate" ++ "/rollout";
  metadata = [];
}

gate_webhooks-Served_example :
    Served memory_handler memory_value refl view memory_store-IsGateStore "http://gate" []
      canary_payload
      (request_with "canary")
      memory_state
      false
      refl
      new_memory_store-IsValid
      (app-Lacks, pod-Lacks)
      refl
      rollout_webhook
unfolding canary_gate.Controller.Webhooks.gate_webhooks
gate_webhooks-Served_example =
    gate_webhooks-Served memory_handler memory_value refl view memory_store-IsGateStore
      "http://gate" [] canary_payload (request_with "canary") memory_state false refl
      new_memory_store-IsValid (app-Lacks, pod-Lacks) refl 2 rollout_webhook refl (λ e. cc)
      rollout_key-IsGate
