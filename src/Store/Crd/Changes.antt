-- ===== src/Store/Crd/Changes.antt =====
-- What the updates of a CanaryGate make of its content, written out.
use canary_gate.Prelude.{
  String, ◌++◌, ◌≡◌, refl, Bool, false, sym, ap, subst, ◌∙◌, some, inl, inr, Option-cases,
  some≢none, eq-false, if◌then◌else◌, ◌==◌,
}
use canary_gate.Service.{HookType}
use canary_gate.Api.{CanaryGate, CanaryGateSpec}
use canary_gate.Store.Defs.{StoreKey, gate_status}
use canary_gate.Store.GateFields.{
  GateField, confirm_rollout, pre_rollout, rollout, confirm_traffic_increase, post_rollout,
  confirm_promotion, rollback, gate_field, set_field,
}
use canary_gate.Store.Crd.Fields.{field_name, gate_field-name}
use canary_gate.Store.Crd.{CanaryGateStore, new_canary_gate, set_gate, event_gate}

-- A field of the spec, where the type is that of the field.
abbrev pub if_type : HookType → HookType → String → String → String
if_type t field v old = if t == field then v else old

gate_field-field_name : (f : GateField) → gate_field (field_name f) ≡ some f
unfolding gate_field
gate_field-field_name confirm_rollout = refl
gate_field-field_name pre_rollout = refl
gate_field-field_name rollout = refl
gate_field-field_name confirm_traffic_increase = refl
gate_field-field_name confirm_promotion = refl
gate_field-field_name post_rollout = refl
gate_field-field_name rollback = refl

module _ {F : Type 0} where
  -- The spec with the field of one type set, and every other field as it was.
  abbrev pub with_field : CanaryGateSpec F → HookType → String → CanaryGateSpec F
  with_field spec t v = record {
    confirm_rollout = if_type t "confirm-rollout" v spec.confirm_rollout;
    pre_rollout = if_type t "pre-rollout" v spec.pre_rollout;
    rollout = if_type t "rollout" v spec.rollout;
    confirm_traffic_increase = if_type t "confirm-traffic-increase" v spec.confirm_traffic_increase;
    confirm_promotion = if_type t "confirm-promotion" v spec.confirm_promotion;
    post_rollout = if_type t "post-rollout" v spec.post_rollout;
    rollback = if_type t "rollback" v spec.rollback;
    target = spec.target;
    flagger = spec.flagger;
  }

  -- The gate of the key is opened or closed; the status names the canary, and keeps its last event.
  abbrev pub with_gate : StoreKey → Bool → CanaryGate F → CanaryGate F
  with_gate k b g = record {
    api_version = g.api_version;
    kind = g.kind;
    spec = with_field g.spec k.type (if b then "opened" else "closed");
    status = record {
      name = k.name;
      namespace = k.namespace;
      status = g.status.status;
      message = g.status.message;
      target = k.namespace ++ ("/" ++ k.name);
    };
  }

  -- The spec is kept, and the status has the event.
  abbrev pub with_event : StoreKey → String → String → CanaryGate F → CanaryGate F
  with_event k status message g = record {
    api_version = g.api_version;
    kind = g.kind;
    spec = g.spec;
    status = record {
      name = k.name;
      namespace = k.namespace;
      status = status;
      message = message;
      target = k.namespace ++ ("/" ++ k.name);
    };
  }

  -- A CanaryGate in which no gate is set, without target or event.
  abbrev pub no_gates : F → CanaryGate F
  no_gates flagger = record {
    api_version = "piggysec.com/v1alpha1";
    kind = "CanaryGate";
    spec = record {
      confirm_rollout = "";
      pre_rollout = "";
      rollout = "";
      confirm_traffic_increase = "";
      confirm_promotion = "";
      post_rollout = "";
      rollback = "";
      target = record { name = ""; namespace = "" };
      flagger = flagger;
    };
    status = record { name = ""; namespace = ""; status = ""; message = ""; target = "" };
  }

  -- A type that is the name of a field.
  set_field-named :
      (spec : CanaryGateSpec F) (v : String) (f : GateField)
      → set_field spec (gate_field (field_name f)) v ≡ with_field spec (field_name f) v
  unfolding set_field gate_field
  set_field-named spec v confirm_rollout = refl
  set_field-named spec v pre_rollout = refl
  set_field-named spec v rollout = refl
  set_field-named spec v confirm_traffic_increase = refl
  set_field-named spec v confirm_promotion = refl
  set_field-named spec v post_rollout = refl
  set_field-named spec v rollback = refl

  set_field-with_field :
      (spec : CanaryGateSpec F) (t : HookType) (v : String)
      → set_field spec (gate_field t) v ≡ with_field spec t v
  unfolding set_field
  set_field-with_field spec t v = elim (Option-cases (gate_field t)) [
    | inr (f, e) ↦
        subst (λ x. set_field spec (gate_field x) v ≡ with_field spec x v)
          (sym (gate_field-name t f e)) (set_field-named spec v f)
    | inl missing ↦
        let apart : (f : GateField) → t == field_name f ≡ false = λ f.
          eq-false t (field_name f)
            (λ e. some≢none (sym (gate_field-field_name f) ∙ ap gate_field (sym e) ∙ missing)) in
        rw
          (
            missing,
            apart confirm_rollout,
            apart pre_rollout,
            apart rollout,
            apart confirm_traffic_increase,
            apart confirm_promotion,
            apart post_rollout,
            apart rollback,
          )
          refl
  ]

module _ {S F U : Type 0} (st : CanaryGateStore S F U) (k : StoreKey) where
  pub set_gate-with_gate : (b : Bool) (g : CanaryGate F) → set_gate st k b g ≡ with_gate k b g
  unfolding set_gate gate_status canary_gate.Store.Crd.target_name
  set_gate-with_gate b g i = record (with_gate k b g) {
    spec = set_field-with_field g.spec k.type (gate_status b) i;
  }

  pub event_gate-with_event :
      (status message : String) (g : CanaryGate F)
      → event_gate st k status message g ≡ with_event k status message g
  unfolding event_gate canary_gate.Store.Crd.target_name
  event_gate-with_event status message g = refl

  pub new_canary_gate-no_gates : (new_canary_gate st k).content ≡ no_gates st.no_flagger
  unfolding new_canary_gate
  new_canary_gate-no_gates = refl
