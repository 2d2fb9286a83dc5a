-- ===== src/Tests/Reconciles.antt =====
-- The theorems on the reconciliation, applied to a map of Canaries.
use canary_gate.Prelude.{
  String, ◌≡◌, refl, sym, ap, ap₂, ◌∙◌, Option, none, some, inl, inr, Bool-cases, if◌then◌else◌,
}
use canary_gate.Runtime.Exec.{done}
use canary_gate.Kube.Api.{Reply, ok, Object, same, same-true}
use canary_gate.Store.Contract.{Ends}
use canary_gate.Controller.Reconcile.{
  CanarySpec, OperationResult, unchanged, created, CanaryGateReconciler, ReconcileResult,
  reconciled, with_webhooks, reconcile,
}
use canary_gate.Controller.Laws.{
  content_of, or_else, IsDocumented, Applied, spec, reconcile_applies, reconcile_again,
}
use canary_gate.Tests.Clients.{Gate}

-- The spec of a Canary, with nothing but its webhooks.
abbrev Spec : Type 0
Spec = CanarySpec (Unit {0}) (Unit {0})

-- The Canaries, by namespace and name.
abbrev Canaries : Type 0
Canaries = String → String → Option (Object Spec)

abbrev set_canary : Object Spec → Object Spec → Canaries → Canaries
set_canary c o s ns n = if same c.namespace c.name ns n then some o else s ns n

abbrev operation : Option (Object Spec) → OperationResult
operation none = created
operation (some o) = unchanged

abbrev empty_spec : Spec
empty_spec = record { analysis = none; rest = tt }

abbrev test_gate : Object Gate
test_gate = record {
  namespace = "app";
  name = "gate";
  version = 1;
  content = record {
    api_version = "piggysec.com/v1alpha1";
    kind = "CanaryGate";
    spec = record {
      confirm_rollout = "";
      pre_rollout = "";
      rollout = "";
      confirm_traffic_increase = "";
      confirm_promotion = "";
      post_rollout = "";
      rollback = "";
      target = record { name = "pod"; namespace = "app" };
      flagger = tt;
    };
    status = record { name = ""; namespace = ""; status = ""; message = ""; target = "" };
  };
}

-- The reconciler that reads `g`, and decodes every Flagger spec as the empty one.
abbrev reconciler :
    Reply (Object Gate) → CanaryGateReconciler Canaries (Unit {0}) (Unit {0}) (Unit {0})
reconciler g = record {
  get = λ ns n s. (g, s);
  create_or_update = λ c f s.
      let old = s c.namespace c.name in (ok (operation old), set_canary c (f (or_else old c)) s);
  record_warning = λ gate reason text s. s;
  record_normal = λ gate reason text s. s;
  unmarshal = λ flagger. some empty_spec;
  error_text = λ e. "error";
  no_analysis = tt;
  endpoint = "http://gate";
}

settled_lem :
    (c o : Object Spec) (s : Canaries) (p : Object Spec)
    → s c.namespace c.name ≡ some o
    → p ≡ o
    → set_canary c p s ≡ s
settled_lem c o s p there e i ns n = settled_at i
  where
    settled_at : set_canary c p s ns n ≡ s ns n
    settled_at = elim (Bool-cases (same c.namespace c.name ns n)) [
      | inl here ↦
          let (q, q') = same-true c.namespace c.name ns n here in
          rw here (ap some e ∙ sym there ∙ ap₂ s q q')
      | inr apart ↦ rw apart refl
    ]

abbrev reconciler-IsDocumented : (g : Reply (Object Gate)) → IsDocumented (reconciler g)
reconciler-IsDocumented g = record {
  canary_at = λ s ns n. s ns n;
  applied = λ c f s t op run ns n. applied_lem c f s t op run ns n;
  settled =
      λ c o f s there e. rw there (ap (λ t. (ok unchanged, t)) (settled_lem c o s (f o) there e));
  quiet = λ gate reason text s ns n. refl;
}
  where
    applied_lem :
        (c : Object Spec) (f : Object Spec → Object Spec) (s t : Canaries) (op : OperationResult)
        → (reconciler g).create_or_update c f s ≡ (ok op, t)
        → (ns n : String)
        → content_of (t ns n) ≡ (
            if same c.namespace c.name ns n
            then some (f (or_else (s c.namespace c.name) c)).content
            else content_of (s ns n))
    applied_lem c f s t op run ns n = elim (Bool-cases (same c.namespace c.name ns n)) [
      | inl here ↦ rw here (ap (λ x. content_of (x.1 ns n)) (sym run) ∙ rw here refl)
      | inr apart ↦ rw apart (ap (λ x. content_of (x.1 ns n)) (sym run) ∙ rw apart refl)
    ]

abbrev no_canary : Canaries
no_canary ns n = none

abbrev gate_spec : Spec
gate_spec =
    spec (reconciler (ok test_gate)) (reconciler-IsDocumented (ok test_gate)) "app" "gate" no_canary
      no_canary no_canary test_gate empty_spec

abbrev applied_canary : Canaries
applied_canary =
    set_canary (record { namespace = "app"; name = "pod"; version = 0; content = gate_spec })
      (record { namespace = "app"; name = "pod"; version = 0; content = gate_spec }) no_canary

reconcile_applies_example :
    Ends (reconcile (reconciler (ok test_gate)) "app" "gate") no_canary reconciled (
      Applied
        (reconciler (ok test_gate))
        (reconciler-IsDocumented (ok test_gate))
        "app"
        "gate"
        no_canary
        no_canary
        applied_canary
        test_gate
        empty_spec)
unfolding canary_gate.Controller.Reconcile.new_canary
reconcile_applies_example =
    reconcile_applies (reconciler (ok test_gate)) (reconciler-IsDocumented (ok test_gate)) "app"
      "gate" no_canary no_canary applied_canary test_gate empty_spec created refl refl refl

-- Every name has a Canary with the spec of the gate.
abbrev all_canaries : Canaries
all_canaries ns n = some (record { namespace = ns; name = n; version = 1; content = gate_spec })

all_canaries-Applied :
    (ns n : String)
    → content_of (all_canaries ns n)
      ≡ (if same "app" "pod" ns n then some gate_spec else content_of (all_canaries ns n))
all_canaries-Applied ns n = elim (Bool-cases (same "app" "pod" ns n)) [
  | inl here ↦ rw here refl
  | inr apart ↦ rw apart refl
]

reconcile_again_example :
    reconcile (reconciler (ok test_gate)) "app" "gate" all_canaries
    ≡ (done reconciled, all_canaries)
reconcile_again_example =
    reconcile_again (reconciler (ok test_gate)) (reconciler-IsDocumented (ok test_gate)) "app"
      "gate" all_canaries all_canaries all_canaries test_gate empty_spec refl refl
      all_canaries-Applied
