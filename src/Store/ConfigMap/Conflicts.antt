-- ===== src/Store/ConfigMap/Conflicts.antt =====
-- Setting a gate of the ConfigMap store where the API server rejects the gate.
use canary_gate.Prelude.{String, ◌≡◌, refl, Bool, none, some}
use canary_gate.Runtime.Exec.{done}
use canary_gate.Runtime.Dict.{Dict, insert}
use canary_gate.Service.{hook_event}
use canary_gate.Kube.Api.{ok, err, status}
use canary_gate.Kube.Retry.{IsBounded, settle_done, settle_status}
use canary_gate.Store.Defs.{StoreKey, gate_status, set_message}
use canary_gate.Store.ConfigMap.{
  ConfigMapStore, ConfigMap, write_map, get_config_map_name, get_config_map_namespace,
  update_event_once, update_event, update_gate_once, update_gate,
}

module _ {S : Type 0} (st : ConfigMapStore S) (bound : IsBounded st.retry) (k : StoreKey)
    (b : Bool) where
  -- The ConfigMap with a field set.
  abbrev pub with_field : ConfigMap → Dict String → String → String → ConfigMap
  with_field conf d f v = record conf { content = some (insert d f v) }

  -- Where the server rejects the update that sets a gate, but not the one that records the event, the
  -- store ends without a panic in the state that the update of the event alone leaves, whose message
  -- says that the gate was set.
  pub update_gate-rejected :
      (s u : S) (conf conf' : ConfigMap) (d : Dict String) (text : String)
      → st.client.get (get_config_map_namespace st k) (get_config_map_name k) s ≡ (ok conf, s)
      → conf.content ≡ some d
      → st.client.update conf.namespace (with_field conf d k.type (gate_status b)) s
        ≡ (err (status text), s)
      → st.client.update conf.namespace (with_field conf d hook_event (set_message k b)) s
        ≡ (ok conf', u)
      → update_gate st k b s ≡ (done tt, u)
  unfolding update_gate
  update_gate-rejected s u conf conf' d text get content rejected recorded =
      let once : update_event_once st k (set_message k b) s ≡ (done none, u) =
        unfold update_event_once write_map in rw (get, content, write_map, recorded) refl in
      let event : update_event st k "Updated" (set_message k b) s ≡ (done tt, u) =
        unfold update_event in
        rw (settle_done st.retry bound (update_event_once st k (set_message k b)) s once) refl in
      let rest : update_gate_once st k b s ≡ (done (some (status text)), u) =
        unfold update_gate_once write_map in rw (get, content, write_map, rejected, event) refl in
      rw (settle_status st.retry bound (update_gate_once st k b) s text rest) refl
