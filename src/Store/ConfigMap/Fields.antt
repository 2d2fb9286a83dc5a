-- ===== src/Store/ConfigMap/Fields.antt =====
-- What the calls of the ConfigMap store read and write, field by field, while the API server is
-- reliable.
use canary_gate.Prelude.{
  String, ◌≡◌, refl, ap₂, ◌∙◌, Bool, ◌&&◌, Option, none, some, inl, inr, ◌==◌, Bool-cases,
  if◌then◌else◌,
}
use canary_gate.Runtime.Exec.{done}
use canary_gate.Runtime.Dict.{Dict, lookup, insert, lookup-insert}
use canary_gate.Kube.Api.{ok, IsReliable, same, same_self, same-true, error_of}
use canary_gate.Kube.Retry.{IsBounded}
use canary_gate.Store.Defs.{StoreKey, default_value, gate_status}
use canary_gate.Store.ConfigMap.Naming
use canary_gate.Store.ConfigMap.{
  ConfigMapStore, ConfigMap, read_map, get_config_map_name, get_config_map_namespace,
  new_config_map, create_config_map_and_get,
}

abbrev pub HasData : Option ConfigMap → Type 0
HasData none = Unit {0}
HasData (some o) = (d : Dict String) × (o.content ≡ some d)

abbrev pub read_stored : Option ConfigMap → String → Option String
read_stored none f = none
read_stored (some o) f = read_map o.content f

module _ {S : Type 0} (st : ConfigMapStore S) (rel : IsReliable st.client)
    (bound : IsBounded st.retry) where
  abbrev pub ns_of : StoreKey → String
  ns_of = get_config_map_namespace st

  abbrev pub stored_for : S → StoreKey → Option ConfigMap
  stored_for s k = rel.stored s (ns_of k) (get_config_map_name k)

  -- The field `f` of the ConfigMap of the canary of `k`.
  abbrev pub field : S → StoreKey → String → Option String
  field s k f = read_stored (stored_for s k) f

  -- The keys `k` and `j` are kept in one ConfigMap.
  abbrev pub same_map : StoreKey → StoreKey → Bool
  same_map = Naming.same_map st

  -- No ConfigMap of a gate was written without data.
  pub record IsValid (s : S) : Type 0 where
    pub has_data : (k : StoreKey) → HasData (stored_for s k)

  -- `t` is `s` with the field `f` of the canary of `k` set to `v`.
  pub record Wrote (s t : S) (k : StoreKey) (f v : String) : Type 0 where
    pub valid : IsValid t
    pub fields :
        (j : StoreKey) (g : String)
        → field t j g ≡ (if same_map k j && (f == g) then some v else field s j g)

  -- A state whose map for `k` is new, and any other as before, with a map of one field.
  module _ (s t : S) (k : StoreKey) (o : ConfigMap) (d : Dict String) (f v : String) where
    module _ (valid : IsValid s) (content : o.content ≡ some d)
        (values : (g : String) → lookup d g ≡ (if f == g then some v else field s k g))
        (stored' : (ns n : String)
          → rel.stored t ns n ≡ (
              if same (ns_of k) (get_config_map_name k) ns n
              then some o
              else rel.stored s ns n)) where
      wrote-HasData : (j : StoreKey) → HasData (stored_for t j)
      wrote-HasData j = elim (Bool-cases (same_map k j)) [
        | inl here ↦ rw (stored' (ns_of j) (get_config_map_name j), here) (d, content)
        | inr there ↦ rw (stored' (ns_of j) (get_config_map_name j), there) (valid.has_data j)
      ]

      wrote_fields :
          (j : StoreKey) (g : String)
          → field t j g ≡ (if same_map k j && (f == g) then some v else field s j g)
      unfolding read_map
      wrote_fields j g = elim (Bool-cases (same_map k j)) [
        | inl here ↦
            let eq =
              same-true (ns_of k) (get_config_map_name k) (ns_of j) (get_config_map_name j) here in
            rw (stored' (ns_of j) (get_config_map_name j), here, content, values g)
              (ap₂ (λ a b. if f == g then some v else read_stored (rel.stored s a b) g) eq.0 eq.1)
        | inr there ↦ rw (stored' (ns_of j) (get_config_map_name j), there) refl
      ]

      wrote : Wrote s t k f v
      wrote = record { valid = record { has_data = wrote-HasData }; fields = wrote_fields }

  -- Loading the ConfigMap of a canary: what is there, or a new one with the default of the gate.
  pub load_found :
      (s : S) (k : StoreKey) (o : ConfigMap)
      → stored_for s k ≡ some o
      → create_config_map_and_get st k s ≡ (done (ok o), s)
  unfolding create_config_map_and_get
  load_found s k o e = rw (rel.get_stored s (ns_of k) (get_config_map_name k) o e) refl

  module _ (s : S) (k : StoreKey) (v : IsValid s) (missing : stored_for s k ≡ none) where
    abbrev pub created : S
    created = (st.client.create (ns_of k) (new_config_map st k) s).1

    abbrev pub created_map : ConfigMap
    created_map = record (new_config_map st k) { namespace = ns_of k; version = rel.next_version s }

    created_stored :
        (ns n : String)
        → rel.stored created ns n ≡ (
            if same (ns_of k) (get_config_map_name k) ns n
            then some created_map
            else rel.stored s ns n)
    unfolding new_config_map
    created_stored = rel.create_stored s (ns_of k) (new_config_map st k) missing

    pub created_at : stored_for created k ≡ some created_map
    created_at = rw (created_stored (ns_of k) (get_config_map_name k), same_self (ns_of k)) refl

    pub created-Wrote : Wrote s created k k.type (gate_status (default_value k))
    unfolding new_config_map lookup
    created-Wrote =
        wrote s created k created_map _ k.type (gate_status (default_value k)) v refl
          (λ g. rw missing refl) created_stored

    pub load_missing : create_config_map_and_get st k s ≡ (done (ok created_map), created)
    unfolding create_config_map_and_get
    load_missing =
        rw
          (
            rel.get_missing s (ns_of k) (get_config_map_name k) missing,
            rel.get_stored created (ns_of k) (get_config_map_name k) created_map created_at,
          )
          refl

  -- Writing one field of a ConfigMap that was loaded.
  module _ (s : S) (k : StoreKey) (o : ConfigMap) (d : Dict String) (f v : String)
      (valid : IsValid s) (found : stored_for s k ≡ some o) (content : o.content ≡ some d) where
    abbrev pub written : ConfigMap
    written = record o { content = some (insert d f v) }

    abbrev pub updated : S
    updated = (st.client.update o.namespace written s).1

    abbrev at : (o.namespace ≡ ns_of k) × (o.name ≡ get_config_map_name k)
    at = rel.stored_at s (ns_of k) (get_config_map_name k) o found

    found_at : rel.stored s o.namespace o.name ≡ some o
    found_at = ap₂ (rel.stored s) at.0 at.1 ∙ found

    pub update_accepted : error_of (st.client.update o.namespace written s).0 ≡ none
    update_accepted = rel.update_accepted s o.namespace written o found_at refl

    abbrev pub stored_map : ConfigMap
    stored_map = record written { namespace = o.namespace; version = rel.next_version s }

    updated_stored :
        (ns n : String)
        → rel.stored updated ns n ≡ (
            if same (ns_of k) (get_config_map_name k) ns n
            then some stored_map
            else rel.stored s ns n)
    updated_stored ns n =
        rel.update_stored s o.namespace written o found_at refl ns n
        ∙ ap₂ (λ a b. if same a b ns n then some stored_map else rel.stored s ns n) at.0 at.1

    pub updated-Wrote : Wrote s updated k f v
    unfolding read_map
    updated-Wrote =
        wrote s updated k stored_map (insert d f v) f v valid refl
          (λ g. rw (found, content) (lookup-insert d f g v)) updated_stored

    pub updated_at : stored_for updated k ≡ some stored_map
    updated_at = rw (updated_stored (ns_of k) (get_config_map_name k), same_self (ns_of k)) refl
