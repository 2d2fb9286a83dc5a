-- ===== src/Server/Launch.antt =====
-- What the server does when it starts where no client of the cluster can be had.
use canary_gate.Prelude.{
  String, ◌≡◌, ◌≢◌, refl, none, [], ◌∷◌, inl, inr, ◌==◌, Bool-cases, eq-false,
}
use canary_gate.Noti.Slack.{SlackApi, new_slack_client}
use canary_gate.Server.{store_kind}
use canary_gate.Server.Startup.{
  Setting, NewStore, config_maps, memory_map, canary_gates, Launch, sets_logging, starts_controller,
  awaits_signal, listens, logging_of, new_client, new_config_map_store, new_canary_gate_store,
  launch_server,
}

-- The store needs a client, and has none.
abbrev pub HasNoClient : {C D : Type 0} → NewStore C D → Type 0
HasNoClient (config_maps s) = s.client ≡ none
HasNoClient memory_map = ⊥
HasNoClient (canary_gates s) = s.client ≡ none

module _ {K C D P N : Type 0} (setting : Setting K C D) (api : SlackApi P N) where
  -- The four steps of the start, over a store.
  abbrev pub started : NewStore C D → Launch C D N
  started stor = record {
    effects =
        sets_logging (logging_of setting.verbose)
        ∷ starts_controller setting.controller_address setting.metrics_address
        ∷ awaits_signal stor
        ∷ listens setting.listen_address (new_slack_client api setting.slack) stor
        ∷ [];
    error = none;
  }

  -- Where a configuration of the cluster is found, but no client of either kind can be made of it, and
  -- the store is not `memory`, `launch_server` gives no error and takes the four steps of the start over
  -- a store that has no client: it sets the logs, starts the goroutines of the controller and of the
  -- signal, and listens. What the goroutines do afterwards is not said.
  pub launch_server-HasNoClient :
      (config config' : K) (e e' : String)
      → setting.clients.get_config ≡ inr config
      → setting.clients.new_for_config config ≡ inl e
      → setting.dynamic_clients.get_config ≡ inr config'
      → setting.dynamic_clients.new_for_config config' ≡ inl e'
      → setting.store_name ≢ "memory"
      → (stor : NewStore C D) × HasNoClient stor × (launch_server setting api ≡ started stor)
  unfolding launch_server store_kind new_config_map_store new_canary_gate_store new_client
  launch_server-HasNoClient config config' e e' found no_client found' no_dynamic other =
      elim (Bool-cases (setting.store_name == "configmap")) [
        | inl here ↦ (
          config_maps (record { client = none; config_ns = setting.config_ns }),
          refl,
          rw (here, found, no_client) refl,
        )
        | inr there ↦ (
          canary_gates (record {
            client = none;
            config_ns = setting.config_ns;
            sink_client = none;
            component = "canarygate";
          }),
          refl,
          rw (there, eq-false setting.store_name "memory" other, found', no_dynamic) refl,
        )
      ]
