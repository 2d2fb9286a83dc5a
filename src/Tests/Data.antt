-- ===== src/Tests/Data.antt =====
-- Test data: a gate of a canary, and a server over the in-memory store.
use canary_gate.Prelude.{◌∷◌, String, false, none, some, [], ◌==◌, if◌then◌else◌}
use canary_gate.Prelude.Text.{Lacks}
use canary_gate.Service.{hook_rollout, hook_event, hook_confirm_rollout}
use canary_gate.Store.Defs.{StoreKey}
use canary_gate.Store.Memory.{SyncMap, memory_store, new_memory_store}
use canary_gate.Store.Memory.Naming.{colon, IsGate}
use canary_gate.Handler.Http.{HandlerState, Request, new_writer}
use canary_gate.Handler.Payload.{CanaryWebhookPayload, CanaryGatePayload, Json}
use canary_gate.Handler.Flagger.{StoreValue, FlaggerHandler}
use canary_gate.Handler.GateApi.{AllGates}
use canary_gate.Store.Memory.Gates.{view}

abbrev pub gate_payload : CanaryGatePayload
gate_payload = record { type = hook_rollout; name = "pod"; namespace = "app" }

abbrev pub event_payload : CanaryGatePayload
event_payload = record { type = hook_event; name = "pod"; namespace = "app" }

abbrev pub rollout_key : StoreKey
rollout_key = record { namespace = "app"; name = "pod"; type = hook_rollout }

abbrev pub canary_payload : CanaryWebhookPayload
canary_payload = record {
  name = "pod";
  namespace = "app";
  phase = "Progressing";
  checksum = "";
  metadata = [];
}

-- A decoder that knows three bodies.
abbrev pub test_json : Json
test_json = record {
  read_webhook = λ t. if t == "canary" then some canary_payload else none;
  read_gate = λ t.
      if t == "gate" then some gate_payload else if t == "event" then some event_payload else none;
  write_statuses = λ m. some "{}";
}

abbrev pub memory_value : StoreValue SyncMap
memory_value = record { methods = memory_store; is_canary_gate_store = false }

abbrev pub memory_handler : FlaggerHandler SyncMap (Unit {0})
memory_handler = record { noti = none; store = some memory_value; json = test_json }

abbrev pub memory_state : HandlerState SyncMap (Unit {0})
memory_state = record { store = new_memory_store; noti = tt; writer = new_writer false }

abbrev pub request_with : String → Request
request_with t = record { body = some t }

pub app-Lacks : Lacks colon "app"
app-Lacks = ((λ e. cc), ((λ e. cc), ((λ e. cc), tt)))

pub pod-Lacks : Lacks colon "pod"
pod-Lacks = ((λ e. cc), ((λ e. cc), ((λ e. cc), tt)))

pub rollout_key-IsGate : IsGate rollout_key
rollout_key-IsGate = ((app-Lacks, pod-Lacks), λ e. cc)

pub confirm_key-IsGate : IsGate (record rollout_key { type = hook_confirm_rollout })
confirm_key-IsGate = ((app-Lacks, pod-Lacks), λ e. cc)

pub rollout_types-AllGates : AllGates view gate_payload (hook_rollout ∷ [])
rollout_types-AllGates = (rollout_key-IsGate, tt)
