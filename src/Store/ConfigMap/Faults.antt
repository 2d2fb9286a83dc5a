-- ===== src/Store/ConfigMap/Faults.antt =====
-- What the ConfigMap store does where the API server refuses a call, or returns a ConfigMap without
-- data, and where two canaries share a ConfigMap.
use canary_gate.Prelude.{
  String, ◌++◌, ◌≡◌, ◌≢◌, refl, sym, false≢true, ap, ◌∙◌, Bool, true, false, not, Option, none,
  some, ◌==◌,
}
use canary_gate.Runtime.Exec.{done, panic, nil_map_write}
use canary_gate.Service.{HookType, hook_event, hook_rollback}
use canary_gate.Kube.Api.{ApiError, not_found, status, ok, err, IsReliable, is_not_found, same-true}
use canary_gate.Kube.Retry.{IsBounded, settle_panic, settle_status}
use canary_gate.Store.Defs.{StoreKey, default_value}
use canary_gate.Store.Contract.{Ends}
use canary_gate.Store.ConfigMap.{
  ConfigMapStore, ConfigMap, write_map, gate_value, get_config_map_name, get_config_map_namespace,
  update_gate_once, update_gate, is_gate_open, gate_close,
}
use canary_gate.Store.ConfigMap.Naming.{same_map, same_map-dashes}
use canary_gate.Store.ConfigMap.Fields.{IsValid, read_stored}
use canary_gate.Store.ConfigMap.Gates.{config_map_store-IsGateStore}
use canary_gate.Store.ConfigMap.Update.{gate_of}

module _ {S : Type 0} (st : ConfigMapStore S) (k : StoreKey) (s t : S) where
  -- Where the ConfigMap cannot be read, for any error but that it is not there, a gate reads as the
  -- default of its type, and nothing is created.
  pub is_gate_open-refused :
      (e : ApiError)
      → st.client.get (get_config_map_namespace st k) (get_config_map_name k) s ≡ (err e, t)
      → is_not_found e ≡ false
      → is_gate_open st k s ≡ (done (default_value k), t)
  unfolding is_gate_open
  is_gate_open-refused not_found get found = absurd (false≢true (sym found))
  is_gate_open-refused _ get found = rw get refl

  -- Where the API server refuses to read the ConfigMap, setting a gate ends without a panic, and
  -- nothing is written.
  pub update_gate-refused :
      (bound : IsBounded st.retry) (b : Bool) (text : String)
      → st.client.get (get_config_map_namespace st k) (get_config_map_name k) s
        ≡ (err (status text), t)
      → update_gate st k b s ≡ (done tt, t)
  unfolding update_gate
  update_gate-refused bound b text get =
      let once : update_gate_once st k b s ≡ (done (some (status text)), t) =
        unfold update_gate_once in rw get refl in
      rw (settle_status st.retry bound (update_gate_once st k b) s text once) refl

  -- A ConfigMap that was written without data cannot take a gate: setting one panics.
  pub update_gate-no_data :
      (bound : IsBounded st.retry) (b : Bool) (conf : ConfigMap)
      → st.client.get (get_config_map_namespace st k) (get_config_map_name k) s ≡ (ok conf, t)
      → conf.content ≡ none
      → update_gate st k b s ≡ (panic nil_map_write, t)
  unfolding update_gate
  update_gate-no_data bound b conf get nil =
      let once : update_gate_once st k b s ≡ (panic nil_map_write, t) =
        unfold update_gate_once in rw (get, nil, write_map) refl in
      rw (settle_panic st.retry bound (update_gate_once st k b) s nil_map_write once) refl

module _ {S : Type 0} (st : ConfigMapStore S) (rel : IsReliable st.client)
    (bound : IsBounded st.retry) where
  gate_value_of_type :
      (k j : StoreKey) (o : Option String) → k.type ≡ j.type → gate_value k o ≡ gate_value j o
  unfolding gate_value default_value
  gate_value_of_type k j none e = ap (λ (t : String). not (t == hook_rollback)) e
  gate_value_of_type k j (some text) e = refl

  same_map-gate_of :
      (s : S) (k j : StoreKey)
      → same_map st k j ≡ true
      → k.type ≡ j.type
      → gate_of st rel bound s k ≡ gate_of st rel bound s j
  same_map-gate_of s k j place type =
      let at =
        same-true (get_config_map_namespace st k) (get_config_map_name k)
          (get_config_map_namespace st j) (get_config_map_name j) place in
      gate_value_of_type k j _ type
      ∙ ap (gate_value j) (λ i. read_stored (rel.stored s (at.0 i) (at.1 i)) (type i))

  -- While the API server is reliable and a namespace is configured, closing a gate of the canary `c` of
  -- the namespace `a-b` also closes that gate of the canary `b-c` of the namespace `a`.
  pub gate_close-shared :
      (a b c : String) (hook : HookType) (s : S)
      → st.config_ns ≢ ""
      → hook ≢ hook_event
      → IsValid st rel bound s
      → Ends
          (gate_close st (record { namespace = a ++ ("-" ++ b); name = c; type = hook }))
          s
          tt
          (λ t.
            gate_of st rel bound t (record { namespace = a; name = b ++ ("-" ++ c); type = hook })
            ≡ false)
  gate_close-shared a b c hook s set gate valid =
      let k : StoreKey = record { namespace = a ++ ("-" ++ b); name = c; type = hook } in
      let j : StoreKey = record { namespace = a; name = b ++ ("-" ++ c); type = hook } in
      let (t, run, (_, closed, _, _, _)) =
        (config_map_store-IsGateStore st rel bound).gate_close_sets s k valid gate in
      (t, run, sym (same_map-gate_of t k j (same_map-dashes st a b c hook hook set) refl) ∙ closed)
