-- ===== src/Server/Routes.antt =====
-- The webhooks that a reconciliation registers (controller/canarygate.go) against the routes of main.go.
use canary_gate.Prelude.{
  ℕ, zero, suc, String, ◌++◌, ◌≡◌, ◌≢◌, refl, sym, subst, Bool, some, some_inj, some≢none,
  get_elem?,
}
use canary_gate.Runtime.Exec.{Exec}
use canary_gate.Runtime.Dict.{Dict}
use canary_gate.Service.{
  hook_event, hook_pre_rollout, hook_rollout, hook_confirm_traffic_increase, hook_confirm_promotion,
  hook_post_rollout, hook_rollback,
}
use canary_gate.Store.Contract.{View, IsGateStore, Ends}
use canary_gate.Handler.Http.{HandlerState, Request, new_writer}
use canary_gate.Handler.Payload.{CanaryWebhookPayload}
use canary_gate.Handler.Flagger.{
  StoreValue, FlaggerHandler, canary_key, confirm_rollout, pre_rollout, rollout,
  confirm_traffic_increase, confirm_promotion, post_rollout, rollback,
}
use canary_gate.Handler.Steps.{decode}
use canary_gate.Handler.Webhook.{Answered, confirm_rollout_answers, create_gate_handler_answers}
use canary_gate.Controller.Webhooks.{CanaryWebhook, gate_webhooks}
use canary_gate.Server.{
  Route, mux, handler_of, confirm_rollout_route, pre_rollout_route, rollout_route,
  confirm_traffic_increase_route, confirm_promotion_route, post_rollout_route, rollback_route,
}

module _ {S N : Type 0} (h : FlaggerHandler S N) (val : StoreValue S) (there : h.store ≡ some val)
    (v : View S) (c : IsGateStore val.methods v) (endpoint : String) (metadata : Dict String)
    (canary : CanaryWebhookPayload) (r : Request) (s : HandlerState S N) (b : Bool)
    (e : decode h.json.read_webhook r ≡ some canary) (valid : v.IsValid s.store)
    (names : v.IsCanary (canary_key canary "")) (w' : s.writer ≡ new_writer b) where
  -- The URL of the webhook is a path of the server, and the handler of that path answers for the gate
  -- that has the name of the webhook.
  abbrev pub Served : CanaryWebhook → Type 0
  Served w =
      (path : String) × (route : Route) × (handle : (Request → Exec (HandlerState S N) (Unit {0})))
      × (w.url ≡ endpoint ++ path)
      × (mux path ≡ some route)
      × (handler_of h route ≡ some handle)
      × Ends (handle r) s tt (Answered v canary w.name s)

  abbrev IsServed : CanaryWebhook → Type 0
  IsServed w = w.name ≢ hook_event → v.IsGate (canary_key canary w.name) → Served w

  webhook_at_route :
      (i : ℕ) (w : CanaryWebhook)
      → get_elem? (gate_webhooks endpoint metadata) i ≡ some w
      → IsServed w
  unfolding gate_webhooks mux handler_of
  webhook_at_route zero w at = subst IsServed (some_inj at) (λ ne gate. (
    "/confirm-rollout",
    confirm_rollout_route,
    confirm_rollout h,
    refl,
    refl,
    refl,
    (confirm_rollout_answers h val there v c canary r s b e valid gate names w'),
  ))
  webhook_at_route (suc zero) w at = subst IsServed (some_inj at) (λ ne gate. (
    "/pre-rollout",
    pre_rollout_route,
    pre_rollout h,
    refl,
    refl,
    refl,
    (create_gate_handler_answers h val there v c canary hook_pre_rollout r s b e valid gate names
        w'),
  ))
  webhook_at_route (suc (suc zero)) w at = subst IsServed (some_inj at) (λ ne gate. (
    "/rollout",
    rollout_route,
    rollout h,
    refl,
    refl,
    refl,
    (create_gate_handler_answers h val there v c canary hook_rollout r s b e valid gate names w'),
  ))
  webhook_at_route (suc (suc (suc zero))) w at = subst IsServed (some_inj at) (λ ne gate. (
    "/confirm-traffic-increase",
    confirm_traffic_increase_route,
    confirm_traffic_increase h,
    refl,
    refl,
    refl,
    (create_gate_handler_answers h val there v c canary hook_confirm_traffic_increase r s b e valid
        gate names w'),
  ))
  webhook_at_route (suc (suc (suc (suc zero)))) w at = subst IsServed (some_inj at) (λ ne gate. (
    "/confirm-promotion",
    confirm_promotion_route,
    confirm_promotion h,
    refl,
    refl,
    refl,
    (create_gate_handler_answers h val there v c canary hook_confirm_promotion r s b e valid gate
        names w'),
  ))
  webhook_at_route (suc (suc (suc (suc (suc zero))))) w at =
      subst IsServed (some_inj at) (λ ne gate. (
        "/post-rollout",
        post_rollout_route,
        post_rollout h,
        refl,
        refl,
        refl,
        (create_gate_handler_answers h val there v c canary hook_post_rollout r s b e valid gate
            names w'),
      ))
  webhook_at_route (suc (suc (suc (suc (suc (suc zero)))))) w at =
      subst IsServed (some_inj at) (λ ne gate. (
        "/rollback",
        rollback_route,
        rollback h,
        refl,
        refl,
        refl,
        (create_gate_handler_answers h val there v c canary hook_rollback r s b e valid gate names
            w'),
      ))
  webhook_at_route (suc (suc (suc (suc (suc (suc (suc zero))))))) w at =
      subst IsServed (some_inj at) (λ ne gate. absurd (ne refl))
  webhook_at_route (suc (suc (suc (suc (suc (suc (suc (suc i)))))))) w at =
      absurd (some≢none (sym at))

  -- Every webhook that a reconciliation registers, but the one for events, leads to a handler of the
  -- server. Over a store that keeps the contract, from a valid state and a response that is not begun,
  -- that handler ends for a payload that can be read with 200 and `Approved` where the gate that has
  -- the name of the webhook is open, with 403 and `Forbidden` where it is closed, and changes no gate.
  pub gate_webhooks-Served :
      (i : ℕ) (w : CanaryWebhook)
      → get_elem? (gate_webhooks endpoint metadata) i ≡ some w
      → w.name ≢ hook_event
      → v.IsGate (canary_key canary w.name)
      → Served w
  gate_webhooks-Served i w at ne gate = webhook_at_route i w at ne gate
