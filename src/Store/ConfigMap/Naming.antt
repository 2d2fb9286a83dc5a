-- ===== src/Store/ConfigMap/Naming.antt =====
-- Which canaries share a ConfigMap (`getConfigMapName`, `getConfigMapNamespace`).
use text.Mathlib.TextLemmas.{append_assoc, append_cancel_left, append_cancel_right}
use canary_gate.Prelude.{String, ◌++◌, ◌≡◌, ◌≢◌, refl, Bool, true, eq_iff, eq-false, eq_refl}
use canary_gate.Kube.Api.{same, same-true}
use canary_gate.Store.Defs.{StoreKey}
use canary_gate.Store.ConfigMap.{ConfigMapStore, get_config_map_name, get_config_map_namespace}

module _ {S : Type 0} (st : ConfigMapStore S) where
  abbrev pub same_map : StoreKey → StoreKey → Bool
  same_map k j =
      same (get_config_map_namespace st k) (get_config_map_name k) (get_config_map_namespace st j)
        (get_config_map_name j)

  -- Where no namespace is configured, two keys of one ConfigMap have the same namespace and name.
  pub same_map-own_namespace :
      (k j : StoreKey)
      → st.config_ns ≡ ""
      → same_map k j ≡ true
      → (k.namespace ≡ j.namespace) × (k.name ≡ j.name)
  unfolding get_config_map_namespace get_config_map_name
  same_map-own_namespace k j e h =
      let (ns, names) =
        same-true (get_config_map_namespace st k) (get_config_map_name k)
          (get_config_map_namespace st j) (get_config_map_name j) h in
      let ns' : k.namespace ≡ j.namespace = rw e at ns in
      let names' = rw ns' at names in
      (ns', append_cancel_right _ _ _ (append_cancel_left _ _ _ (append_cancel_left _ _ _ names')))

  -- Where a namespace is configured, two canaries whose namespaces and names join to one text with
  -- dashes share a ConfigMap.
  pub same_map-dashes :
      (a b c t u : String)
      → st.config_ns ≢ ""
      → same_map
          (record { namespace = a ++ ("-" ++ b); name = c; type = t })
          (record { namespace = a; name = b ++ ("-" ++ c); type = u })
        ≡ true
  unfolding get_config_map_namespace get_config_map_name
  same_map-dashes a b c t u set =
      let names : (a ++ ("-" ++ b)) ++ ("-" ++ (c ++ ("-" ++ "cgate")))
          ≡ a ++ ("-" ++ ((b ++ ("-" ++ c)) ++ ("-" ++ "cgate"))) =
        simp append_assoc in
      rw (eq-false st.config_ns "" set, eq_refl, (eq_iff _ _).1 names) refl
