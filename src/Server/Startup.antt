-- ===== src/Server/Startup.antt =====
-- main.go: what the server does when it starts, and the constructors of the stores that keep their gates
-- in the cluster (store/configmap.go, store/canarygate.go).
use canary_gate.Prelude.{
  ℕ, zero, suc, String, Bool, true, false, Option, none, some, List, [], ◌∷◌, ◌⊎◌, inl, inr,
}
use canary_gate.Noti.{NotiClient}
use canary_gate.Noti.Slack.{SlackApi, SlackOption, new_slack_client}
use canary_gate.Server.{StoreKind, configmap, memory, canarygate, store_kind}

pub data LogLevel : Type 0 where
  info_level debug_level trace_level : LogLevel

-- The sink of the logs of controller-runtime: none, or `LogrAdapter`.
pub data LogSink : Type 0 where
  null_sink logr_adapter : LogSink

pub record Logging : Type 0 where
  pub level : LogLevel
  pub klog_discarded : Bool
  pub sink : LogSink

-- The switch on the number of `verbose` flags.
unfoldable pub logging_of : ℕ → Logging
logging_of (suc zero) = record { level = debug_level; klog_discarded = true; sink = null_sink }
logging_of (suc (suc zero)) = record {
  level = trace_level;
  klog_discarded = false;
  sink = logr_adapter;
}
logging_of n = record { level = info_level; klog_discarded = true; sink = null_sink }

-- Where a client cannot be had the text is that of the error.
pub record ClientSource (K C : Type 0) : Type 0 where
  pub get_config : String ⊎ K
  pub new_for_config : K → String ⊎ C

-- `newK8sClient` and `newDynamicClient`
unfoldable pub new_client : {K C : Type 0} → ClientSource K C → String ⊎ C
new_client source = elim source.get_config [
  | inl e ↦ inl e
  | inr config ↦ source.new_for_config config
]

abbrev pub client_or_nil : {C : Type 0} → String ⊎ C → Option C
client_or_nil (inl e) = none
client_or_nil (inr client) = some client

-- The client that is given, or a new one: an error is only logged, and leaves nil (`none`).
abbrev pub client_of : {K C : Type 0} → ClientSource K C → Option C → Option C
client_of source none = client_or_nil (new_client source)
client_of source (some client) = some client

-- `*ConfigMapStore` with the namespace of `CANARY_GATE_NAMESPACE`. The field `data` is never used.
pub record ConfigMaps (C : Type 0) : Type 0 where
  pub client : Option C
  pub config_ns : String

-- `*CanaryGateStore`: the sink of its events has the same client, and its recorder a component.
pub record CanaryGates (C : Type 0) : Type 0 where
  pub client : Option C
  pub config_ns : String
  pub sink_client : Option C
  pub component : String

pub data NewStore (C D : Type 0) : Type 0 where
  config_maps : ConfigMaps C → NewStore C D
  memory_map : NewStore C D
  canary_gates : CanaryGates D → NewStore C D

module _ {K C D : Type 0} where
  unfoldable pub new_config_map_store : ClientSource K C → String → Option C → String ⊎ NewStore C D
  unfolding new_client
  new_config_map_store source config_ns k8s_client =
      inr (config_maps (record { client = client_of source k8s_client; config_ns = config_ns }))

  unfoldable pub new_canary_gate_store :
      ClientSource K D → String → Option D → String ⊎ NewStore C D
  unfolding new_client
  new_canary_gate_store source config_ns k8s_client =
      let k8s = client_of source k8s_client in
      inr (
        canary_gates (record {
          client = k8s;
          config_ns = config_ns;
          sink_client = k8s;
          component = "canarygate";
        }))

-- The environment and the flags, and what the machine has for clients of either kind.
pub record Setting (K C D : Type 0) : Type 0 where
  pub store_name : String
  pub config_ns : String
  pub verbose : ℕ
  pub listen_address : String
  pub controller_address : String
  pub metrics_address : String
  pub slack : SlackOption
  pub clients : ClientSource K C
  pub dynamic_clients : ClientSource K D

-- What `launchServer` does, in its order: it sets the logs, starts the controller with its addresses,
-- starts to wait for the signal with the store that it then shuts down, and listens, with handlers over
-- the client of the notifications and the store.
-- The goroutine of the controller is Controller.Manager: that one can end the process.
pub data Effect (C D N : Type 0) : Type 0 where
  sets_logging : Logging → Effect C D N
  starts_controller : String → String → Effect C D N
  awaits_signal : NewStore C D → Effect C D N
  listens : String → NotiClient N → NewStore C D → Effect C D N

-- The effects, and the error that ended the start, if there is one.
pub record Launch (C D N : Type 0) : Type 0 where
  pub effects : List (Effect C D N)
  pub error : Option String

module _ {K C D : Type 0} (setting : Setting K C D) where
  abbrev pub store_of : StoreKind → String ⊎ NewStore C D
  store_of configmap = new_config_map_store setting.clients setting.config_ns none
  store_of memory = inr memory_map
  store_of canarygate = new_canary_gate_store setting.dynamic_clients setting.config_ns none

  abbrev pub launched : {P N : Type 0} → SlackApi P N → String ⊎ NewStore C D → Launch C D N
  launched api (inl e) = record {
    effects = sets_logging (logging_of setting.verbose) ∷ [];
    error = some e;
  }
  launched api (inr stor) = record {
    effects =
        sets_logging (logging_of setting.verbose)
        ∷ starts_controller setting.controller_address setting.metrics_address
        ∷ awaits_signal stor
        ∷ listens setting.listen_address (new_slack_client api setting.slack) stor
        ∷ [];
    error = none;
  }

  unfoldable pub launch_server : {P N : Type 0} → SlackApi P N → Launch C D N
  launch_server api = launched api (store_of (store_kind setting.store_name))
