-- ===== src/Controller/Reconcile.antt =====
-- `Reconcile`, over the clients of controller-runtime.
use canary_gate.Prelude.{ℕ, String, ◌++◌, Option, none, some, List, if◌then◌else◌}
use canary_gate.Runtime.Exec.{Exec, pure, modify, ◌>>=◌, ◌>>◌}
use canary_gate.Api.{CanaryGate}
use canary_gate.Kube.Api.{ApiError, other, Reply, ok, err, Object, is_not_found, call}
use canary_gate.Controller.Webhooks.{CanaryWebhook, default_metadata, gate_webhooks}

-- Flagger's spec of a Canary: the webhooks of its analysis, and all else, `A` and `X`.
pub record CanaryAnalysis (A : Type 0) : Type 0 where
  pub webhooks : List CanaryWebhook
  pub rest : A

pub record CanarySpec (A X : Type 0) : Type 0 where
  pub analysis : Option (CanaryAnalysis A)
  pub rest : X

-- `controllerutil.OperationResult`
pub data OperationResult : Type 0 where
  unchanged created updated : OperationResult

abbrev pub operation_text : OperationResult → String
operation_text unchanged = "unchanged"
operation_text created = "created"
operation_text updated = "updated"

-- The manager's client, `controllerutil.CreateOrUpdate` with it, the event recorder, the JSON decoder
-- of a raw Flagger spec `F`, the empty analysis, and `CANARY_GATE_ENDPOINT`. An error has a text.
pub record CanaryGateReconciler (S F A X : Type 0) : Type 0 where
  pub get : String → String → S → Reply (Object (CanaryGate F)) × S
  pub create_or_update :
      Object (CanarySpec A X)
      → (Object (CanarySpec A X) → Object (CanarySpec A X))
      → S
      → Reply OperationResult × S
  pub record_warning : Object (CanaryGate F) → String → String → S → S
  pub record_normal : Object (CanaryGate F) → String → String → S → S
  pub unmarshal : F → Option (CanarySpec A X)
  pub error_text : ApiError → String
  pub no_analysis : A
  pub endpoint : String

-- `ctrl.Result` with the error: the seconds after which the request is queued again.
pub record ReconcileResult : Type 0 where
  pub requeue_after : Option ℕ
  pub error : Option ApiError

abbrev pub reconciled : ReconcileResult
reconciled = record { requeue_after = none; error = none }

module _ {S F A X : Type 0} (r : CanaryGateReconciler S F A X) where
  abbrev pub analysis_of : Option (CanaryAnalysis A) → A
  analysis_of none = r.no_analysis
  analysis_of (some a) = a.rest

  -- The spec with the controlled webhooks in place of those it had.
  unfoldable pub with_webhooks : Object (CanaryGate F) → CanarySpec A X → CanarySpec A X
  with_webhooks gate spec = record spec {
    analysis = some (record {
      webhooks = gate_webhooks r.endpoint (default_metadata gate.name gate.namespace);
      rest = analysis_of spec.analysis;
    });
  }

  unfoldable pub new_canary : Object (CanaryGate F) → CanarySpec A X → Object (CanarySpec A X)
  new_canary gate spec = record {
    namespace = gate.content.spec.target.namespace;
    name = gate.content.spec.target.name;
    version = 0;
    content = spec;
  }

  -- What follows `CreateOrUpdate`.
  unfoldable pub report : Object (CanaryGate F) → Reply OperationResult → Exec S ReconcileResult
  report gate (err e) = do
    modify (r.record_warning gate "ReconcileFailed" (r.error_text e))
    pure (record { requeue_after = none; error = some e })
  report gate (ok unchanged) = pure reconciled
  report gate (ok result) = do
    modify (
        r.record_normal gate "CanaryReconciled"
          ("Canary resource " ++ (operation_text result ++ " successfully")))
    pure reconciled

  unfoldable pub apply_spec :
      Object (CanaryGate F) → Option (CanarySpec A X) → Exec S ReconcileResult
  unfolding new_canary report
  apply_spec gate none = pure (record { requeue_after = some 60; error = some (other "unmarshal") })
  apply_spec gate (some flagger) =
      let spec = with_webhooks gate flagger in
      (do
        result ← call (r.create_or_update (new_canary gate spec) (λ c. record c { content = spec }))
        report gate result)

  unfoldable pub reconcile : String → String → Exec S ReconcileResult
  unfolding apply_spec
  reconcile namespace name = do
    g ← call (r.get namespace name)
    elim g [
      | err e ↦
          if is_not_found e
          then pure reconciled
          else pure (record { requeue_after = none; error = some e })
      | ok gate ↦ apply_spec gate (r.unmarshal gate.content.spec.flagger)
    ]
