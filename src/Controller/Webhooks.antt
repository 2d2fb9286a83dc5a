-- ===== src/Controller/Webhooks.antt =====
-- The webhooks that `Reconcile` puts into the analysis of a Canary.
use canary_gate.Prelude.{String, ◌++◌, List, [], ◌∷◌}
use canary_gate.Runtime.Dict.{Dict}
use canary_gate.Service.{
  hook_rollout, hook_pre_rollout, hook_post_rollout, hook_confirm_rollout, hook_confirm_promotion,
  hook_event, hook_rollback, hook_confirm_traffic_increase,
}

-- The constants of Flagger for the types of a webhook.
pub data FlaggerHook : Type 0 where
  confirm_rollout_hook pre_rollout_hook rollout_hook confirm_traffic_increase_hook : FlaggerHook
  confirm_promotion_hook post_rollout_hook rollback_hook event_hook : FlaggerHook

pub record CanaryWebhook : Type 0 where
  pub name : String
  pub type : FlaggerHook
  pub url : String
  pub metadata : Dict String

-- The metadata of every webhook.
abbrev pub default_metadata : String → String → Dict String
default_metadata name namespace = ("gate_name", name) ∷ ("gate_namespace", namespace) ∷ []

unfoldable pub gate_webhooks : String → Dict String → List CanaryWebhook
gate_webhooks endpoint metadata =
    record {
      name = hook_confirm_rollout;
      type = confirm_rollout_hook;
      url = endpoint ++ "/confirm-rollout";
      metadata = metadata;
    }
    ∷ record {
      name = hook_pre_rollout;
      type = pre_rollout_hook;
      url = endpoint ++ "/pre-rollout";
      metadata = metadata;
    }
    ∷ record {
      name = hook_rollout;
      type = rollout_hook;
      url = endpoint ++ "/rollout";
      metadata = metadata;
    }
    ∷ record {
      name = hook_confirm_traffic_increase;
      type = confirm_traffic_increase_hook;
      url = endpoint ++ "/confirm-traffic-increase";
      metadata = metadata;
    }
    ∷ record {
      name = hook_confirm_promotion;
      type = confirm_promotion_hook;
      url = endpoint ++ "/confirm-promotion";
      metadata = metadata;
    }
    ∷ record {
      name = hook_post_rollout;
      type = post_rollout_hook;
      url = endpoint ++ "/post-rollout";
      metadata = metadata;
    }
    ∷ record {
      name = hook_rollback;
      type = rollback_hook;
      url = endpoint ++ "/rollback";
      metadata = metadata;
    }
    ∷ record {
      name = hook_event;
      type = event_hook;
      url = endpoint ++ "/event";
      metadata = metadata;
    }
    ∷ []
