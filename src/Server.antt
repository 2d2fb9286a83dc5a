-- ===== src/Server.antt =====
-- main.go: the routes of the HTTP server and the choice of the store.
pub mod Routes
pub mod Flags
pub mod Scheme
pub mod Startup
pub mod Lifecycle
pub mod Shutdown
pub mod Launch
use canary_gate.Prelude.{String, ◌==◌, Option, none, some, if◌then◌else◌}
use canary_gate.Runtime.Exec.{Exec, pure, ◌>>=◌, ◌>>◌}
use canary_gate.Service.{
  HookType, hook_rollout, hook_pre_rollout, hook_post_rollout, hook_confirm_promotion,
  hook_rollback, hook_confirm_traffic_increase,
}
use canary_gate.Handler.Http.{HandlerState, Request, write_bytes, status_ok}
use canary_gate.Handler.Flagger.{
  FlaggerHandler, confirm_rollout, pre_rollout, rollout, confirm_traffic_increase,
  confirm_promotion, post_rollout, rollback, event, open_gate, close_gate, status_gate,
}

-- The stores that `CANARY_GATE_STORE` chooses from.
pub data StoreKind : Type 0 where
  configmap memory canarygate : StoreKind

unfoldable pub store_kind : String → StoreKind
store_kind name =
    if name == "configmap" then configmap else if name == "memory" then memory else canarygate

-- The handlers that are registered; `/metrics` and `/version` do not reach the gates.
pub data Route : Type 0 where
  confirm_rollout_route pre_rollout_route rollout_route confirm_traffic_increase_route : Route
  confirm_promotion_route post_rollout_route rollback_route event_route : Route
  open_route close_route status_route metrics_route version_route : Route

unfoldable pub mux : String → Option Route
mux path =
    if path == "/confirm-rollout"
    then some confirm_rollout_route
    else if path == "/pre-rollout"
    then some pre_rollout_route
    else if path == "/rollout"
    then some rollout_route
    else if path == "/confirm-traffic-increase"
    then some confirm_traffic_increase_route
    else if path == "/confirm-promotion"
    then some confirm_promotion_route
    else if path == "/post-rollout"
    then some post_rollout_route
    else if path == "/rollback"
    then some rollback_route
    else if path == "/event"
    then some event_route
    else if path == "/open"
    then some open_route
    else if path == "/close"
    then some close_route
    else if path == "/status"
    then some status_route
    else if path == "/metrics"
    then some metrics_route
    else if path == "/version"
    then some version_route
    else none

module _ {S N : Type 0} (h : FlaggerHandler S N) where
  -- The handler of a route of the gates.
  unfoldable pub handler_of : Route → Option (Request → Exec (HandlerState S N) (Unit {0}))
  handler_of confirm_rollout_route = some (confirm_rollout h)
  handler_of pre_rollout_route = some (pre_rollout h)
  handler_of rollout_route = some (rollout h)
  handler_of confirm_traffic_increase_route = some (confirm_traffic_increase h)
  handler_of confirm_promotion_route = some (confirm_promotion h)
  handler_of post_rollout_route = some (post_rollout h)
  handler_of rollback_route = some (rollback h)
  handler_of event_route = some (event h)
  handler_of open_route = some (open_gate h)
  handler_of close_route = some (close_gate h)
  handler_of status_route = some (status_gate h)
  handler_of metrics_route = none
  handler_of version_route = none
