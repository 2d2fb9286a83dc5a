-- ===== src/Controller/Laws.antt =====
-- What a reconciliation writes, while `CreateOrUpdate` keeps its documentation.
use canary_gate.Prelude.{
  [], ◌∷◌, String, ◌++◌, ◌≡◌, refl, sym, ap, ◌∙◌, Option, none, some, inl, inr, Option-cases,
  some≢none, some_inj, if◌then◌else◌,
}
use canary_gate.Runtime.Exec.{done}
use canary_gate.Api.{CanaryGate}
use canary_gate.Kube.Api.{ok, Object, same, same_self}
use canary_gate.Store.Contract.{Ends}
use canary_gate.Controller.Webhooks.{
  FlaggerHook, confirm_rollout_hook, pre_rollout_hook, rollout_hook, confirm_traffic_increase_hook,
  confirm_promotion_hook, post_rollout_hook, rollback_hook, event_hook, CanaryWebhook,
  default_metadata, gate_webhooks,
}
use canary_gate.Controller.Reconcile.{
  CanarySpec, CanaryAnalysis, OperationResult, unchanged, created, updated, CanaryGateReconciler,
  reconciled, with_webhooks, new_canary, analysis_of, report, apply_spec, reconcile,
}

abbrev pub content_of : {D : Type 0} → Option (Object D) → Option D
content_of none = none
content_of (some o) = some o.content

abbrev pub or_else {ℓ} : {D : Type ℓ} → Option D → D → D
or_else none d = d
or_else (some o) d = o

-- What `CreateOrUpdate` documents, and that the recorder leaves the Canaries alone: on success the
-- object at the key is the mutated one, and nothing is written where the mutation changes nothing.
pub record IsDocumented {S F A X : Type 0} (r : CanaryGateReconciler S F A X) : Type 0 where
  pub canary_at : S → String → String → Option (Object (CanarySpec A X))
  pub applied :
      (c : Object (CanarySpec A X)) (f : Object (CanarySpec A X) → Object (CanarySpec A X))
      (s t : S) (op : OperationResult)
      → r.create_or_update c f s ≡ (ok op, t)
      → (ns n : String)
      → content_of (canary_at t ns n) ≡ (
          if same c.namespace c.name ns n
          then some (f (or_else (canary_at s c.namespace c.name) c)).content
          else content_of (canary_at s ns n))
  pub settled :
      (c o : Object (CanarySpec A X)) (f : Object (CanarySpec A X) → Object (CanarySpec A X))
      (s : S)
      → canary_at s c.namespace c.name ≡ some o
      → f o ≡ o
      → r.create_or_update c f s ≡ (ok unchanged, s)
  pub quiet :
      (gate : Object (CanaryGate F)) (reason text : String) (s : S) (ns n : String)
      → canary_at (r.record_normal gate reason text s) ns n ≡ canary_at s ns n

module _ {S F A X : Type 0} (r : CanaryGateReconciler S F A X) (d : IsDocumented r)
    (namespace name : String) (s u t : S) (gate : Object (CanaryGate F))
    (flagger : CanarySpec A X) where
  -- A webhook of the gate: its name, its type, and the path below the endpoint of the server.
  abbrev pub controlled : String → FlaggerHook → String → CanaryWebhook
  controlled name type path = record {
    name = name;
    type = type;
    url = r.endpoint ++ path;
    metadata = ("gate_name", gate.name) ∷ ("gate_namespace", gate.namespace) ∷ [];
  }

  abbrev pub kept_rest : Option (CanaryAnalysis A) → A
  kept_rest none = r.no_analysis
  kept_rest (some a) = a.rest

  -- The Flagger spec of the gate, with these eight webhooks alone.
  abbrev pub spec : CanarySpec A X
  spec = record {
    analysis = some (record {
      webhooks =
          controlled "confirm-rollout" confirm_rollout_hook "/confirm-rollout"
          ∷ controlled "pre-rollout" pre_rollout_hook "/pre-rollout"
          ∷ controlled "rollout" rollout_hook "/rollout"
          ∷ controlled "confirm-traffic-increase" confirm_traffic_increase_hook
              "/confirm-traffic-increase"
          ∷ controlled "confirm-promotion" confirm_promotion_hook "/confirm-promotion"
          ∷ controlled "post-rollout" post_rollout_hook "/post-rollout"
          ∷ controlled "rollback" rollback_hook "/rollback"
          ∷ controlled "event" event_hook "/event"
          ∷ [];
      rest = kept_rest flagger.analysis;
    });
    rest = flagger.rest;
  }

  rest_lem : (o : Option (CanaryAnalysis A)) → analysis_of r o ≡ kept_rest o
  rest_lem none = refl
  rest_lem (some a) = refl

  with_webhooks_lem : with_webhooks r gate flagger ≡ spec
  unfolding with_webhooks gate_webhooks
  with_webhooks_lem i = record spec {
    analysis = some (record {
      webhooks = gate_webhooks r.endpoint (default_metadata gate.name gate.namespace);
      rest = rest_lem flagger.analysis i;
    });
  }

  abbrev pub set_spec : Object (CanarySpec A X) → Object (CanarySpec A X)
  set_spec c = record c { content = spec }

  -- The Canaries after the spec was applied.
  abbrev pub Applied : S → Type 0
  Applied t =
      (ns n : String)
      → content_of (d.canary_at t ns n) ≡ (
          if same gate.content.spec.target.namespace gate.content.spec.target.name ns n
          then some spec
          else content_of (d.canary_at u ns n))

  report_ends :
      (op : OperationResult)
      → Applied t
      → Ends (report r gate (ok op)) t reconciled (λ t'. Applied t')
  unfolding report
  report_ends unchanged a = (t, refl, a)
  report_ends created a = (
    r.record_normal gate "CanaryReconciled" ("Canary resource " ++ ("created" ++ " successfully"))
        t,
    refl,
    λ ns n. ap content_of (d.quiet gate _ _ t ns n) ∙ a ns n,
  )
  report_ends updated a = (
    r.record_normal gate "CanaryReconciled" ("Canary resource " ++ ("updated" ++ " successfully"))
        t,
    refl,
    λ ns n. ap content_of (d.quiet gate _ _ t ns n) ∙ a ns n,
  )

  -- Where `CreateOrUpdate` keeps its documentation and accepts the Canary, a reconciliation of a gate
  -- that can be read and decoded succeeds: the Canary of the target then has the Flagger spec of the
  -- gate whose webhooks are the eight of the gate, each with its type, the path of its name below the
  -- endpoint, and the name and the namespace of the gate; every other Canary has the spec that it had.
  pub reconcile_applies :
      (op : OperationResult)
      → r.get namespace name s ≡ (ok gate, u)
      → r.unmarshal gate.content.spec.flagger ≡ some flagger
      → r.create_or_update (new_canary r gate spec) set_spec u ≡ (ok op, t)
      → Ends (reconcile r namespace name) s reconciled Applied
  unfolding reconcile new_canary
  reconcile_applies op get decoded accepted =
      let (t', run, a) =
        report_ends op (d.applied (new_canary r gate spec) set_spec u t op accepted) in
      (t', rw (get, decoded, apply_spec, with_webhooks_lem, accepted, run) refl, a)

  at_target :
      Applied u
      → content_of (d.canary_at u gate.content.spec.target.namespace gate.content.spec.target.name)
        ≡ some spec
  at_target a =
      a gate.content.spec.target.namespace gate.content.spec.target.name
      ∙ rw (same_self gate.content.spec.target.namespace gate.content.spec.target.name) refl

  has_spec : (o : Object (CanarySpec A X)) → o.content ≡ spec → set_spec o ≡ o
  has_spec o e i = record o { content = sym e i }

  -- Where `CreateOrUpdate` keeps its documentation and the Canary of the target has the spec already,
  -- a reconciliation changes nothing and records nothing.
  pub reconcile_again :
      r.get namespace name s ≡ (ok gate, u)
      → r.unmarshal gate.content.spec.flagger ≡ some flagger
      → Applied u
      → reconcile r namespace name s ≡ (done reconciled, u)
  unfolding reconcile new_canary report
  reconcile_again get decoded a =
      elim (Option-cases
        (d.canary_at u gate.content.spec.target.namespace gate.content.spec.target.name)) [
          | inl missing ↦ absurd (some≢none (sym (at_target a) ∙ ap content_of missing))
          | inr (o, there) ↦
              let settled =
                d.settled (new_canary r gate spec) o set_spec u there
                  (has_spec o (some_inj (sym (ap content_of there) ∙ at_target a))) in
              rw (get, decoded, apply_spec, with_webhooks_lem, settled) refl
        ]
