-- ===== src/Tests/Machine.antt =====
-- A machine with a proxy to a server over the in-memory store, and texts for what the two exchange.
use Prim.Native.String.append
use canary_gate.Prelude.{
  nat_eq, String, ◌++◌, refl, ap, ◌∙◌, false, Option, none, some, List, [], ◌∷◌, ◌==◌,
  if◌then◌else◌,
}
use canary_gate.Runtime.Exec.{Exec, Outcome, done, panic}
use canary_gate.Service.{hook_rollout, hook_event, hook_all}
use canary_gate.Store.Defs.{set_message}
use canary_gate.Store.Memory.{SyncMap, new_memory_store}
use canary_gate.Handler.Http.{HandlerState, Request, ResponseWriter, new_writer, sent_status}
use canary_gate.Handler.Payload.{CanaryGateStatus, StatusMap, Json}
use canary_gate.Handler.Flagger.{FlaggerHandler}
use canary_gate.Server.{Route, mux, handler_of}
use canary_gate.Cli.Remote.{Machine, Response}
use canary_gate.Cli.Run.{Flags}
use canary_gate.Cli.Proxy.{IsConfigured, IsDeployed, IsProxied}
use canary_gate.Tests.Data.{memory_value, gate_payload, rollout_key}
use canary_gate.Tests.Paths.{strip, strip_append}
use canary_gate.Tests.Commands.{client, pod, service, service-Resolves, client-Selects}
use canary_gate.Handler.Statuses.{all_gates, shown_statuses}
use canary_gate.Store.Memory.Gates.{gate_of}

abbrev pub flags : Flags
flags = record { cluster = "local"; namespace = "app"; deployment = "pod" }

-- The texts of the statuses: how many there are, and what the first of them says.
abbrev encode_list : List CanaryGateStatus → Option String
encode_list (s ∷ []) = some (s.status ++ " alone")
encode_list (s ∷ e ∷ []) = some (s.status ++ " with event")
encode_list (s ∷ e ∷ e' ∷ more) = some "overview"
encode_list [] = none

abbrev encode : StatusMap → Option String
encode [] = none
encode ((key, l) ∷ rest) = encode_list l

abbrev json : Json
json = record {
  read_webhook = λ t. none;
  read_gate = λ t.
      if t == "gate"
      then some gate_payload
      else if t == "all gates"
      then some (record gate_payload { type = hook_all })
      else none;
  write_statuses = encode;
}

abbrev pub handler : FlaggerHandler SyncMap (Unit {0})
handler = record { noti = none; store = some memory_value; json = json }

-- The proxy of the pod.
abbrev server_path : String → String
server_path p = strip "/proxy" (
    strip (client.decimal 8080)
      (strip ":" (strip pod.name (strip "/pods/" (strip "app" (strip "/api/v1/namespaces/" p))))))

abbrev sends :
    ResponseWriter → HandlerState SyncMap (Unit {0}) → Response × HandlerState SyncMap (Unit {0})
sends w t =
    if nat_eq (sent_status w) 200
    then (record { error = none; raw = some w.body }, t)
    else (record { error = some "status"; raw = none }, t)

abbrev respond :
    Outcome (Unit {0}) × HandlerState SyncMap (Unit {0})
    → Response × HandlerState SyncMap (Unit {0})
respond (done tt, t) = sends t.writer t
respond (panic p, t) = (record { error = some "closed"; raw = none }, t)

abbrev handled :
    Option (Request → Exec (HandlerState SyncMap (Unit {0})) (Unit {0}))
    → String
    → HandlerState SyncMap (Unit {0})
    → Response × HandlerState SyncMap (Unit {0})
handled none body s = (record { error = some "not found"; raw = none }, s)
handled (some handle) body s =
    respond (handle (record { body = some body }) (record s { writer = new_writer false }))

abbrev routed :
    Option Route
    → String
    → HandlerState SyncMap (Unit {0})
    → Response × HandlerState SyncMap (Unit {0})
routed none body s = (record { error = some "not found"; raw = none }, s)
routed (some route) body s = handled (handler_of handler route) body s

abbrev closed : CanaryGateStatus
closed = record { type = hook_rollout; name = "pod"; namespace = "app"; status = "closed" }

abbrev closing : CanaryGateStatus
closing = record {
  type = hook_event;
  name = "pod";
  namespace = "app";
  status = set_message rollout_key false;
}

-- The statuses of a new store.
abbrev new_overview : StatusMap
new_overview =
    shown_statuses "app" "pod" (λ t. gate_of new_memory_store (record rollout_key { type = t })) ""
      all_gates

abbrev decode : String → Option StatusMap
decode t =
    if t == "closed alone"
    then some (("app/pod", closed ∷ []) ∷ [])
    else if t == "closed with event"
    then some (("app/pod", closed ∷ closing ∷ []) ∷ [])
    else if t == "overview"
    then some new_overview
    else none

abbrev pub machine : Machine (Unit {0}) (HandlerState SyncMap (Unit {0}))
machine = record {
  home = "/root";
  join = λ parts. "/root/.kube/config";
  client_config = λ path alias. some tt;
  new_for_config = λ config. some client;
  do_request = λ c method path body s. routed (mux (server_path path)) body s;
  pad = λ t. t ++ "  ";
  write_gate = λ p. if p.type == hook_all then some "all gates" else some "gate";
  read_statuses = decode;
  write_text = λ t. some t;
  read_version = λ t. some (record { version = t });
}

pub machine-IsConfigured : IsConfigured machine client flags
machine-IsConfigured = record {
  cluster = λ e. cc;
  deployment = λ e. cc;
  config = tt;
  loaded = refl;
  connected = refl;
}

pub client-IsDeployed : IsDeployed client "app" pod 8080
client-IsDeployed = record {
  service = service;
  more = [];
  listed = refl;
  selects = client-Selects;
  port = service-Resolves;
}

pub machine-IsProxied : IsProxied handler machine client "app" pod 8080
machine-IsProxied = record {
  forwards = λ method path body text route handle s t routed handled ends written.
      rw
        (
          strip_append "/api/v1/namespaces/",
          strip_append "app",
          strip_append "/pods/",
          strip_append "gate-1",
          strip_append ":",
          strip_append "8080",
          strip_append "/proxy",
          routed,
          handled,
          ends,
        )
        (ap (λ w. sends w t) written
          ∙ ap (λ x. (record { error = none; raw = some x }, t)) (append.nil text));
}
