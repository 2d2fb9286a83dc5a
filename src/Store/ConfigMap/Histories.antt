-- ===== src/Store/ConfigMap/Histories.antt =====
-- Any history of calls on a ConfigMap store whose API server holds none of its ConfigMaps.
use canary_gate.Prelude.{
  ap₂, ◌≡◌, ◌≢◌, refl, false, ◌&&◌, List, none, inl, inr, ◌==◌, eq_iff, and_true, Bool-cases,
}
use canary_gate.Kube.Api.{IsReliable}
use canary_gate.Kube.Retry.{IsBounded}
use canary_gate.Store.Defs.{StoreKey, StoreKey-ext}
use canary_gate.Store.Contract.{Ends, canary_eq}
use canary_gate.Store.Book.{default_book, answers, canary_eq-true, canary_eq-false}
use canary_gate.Store.Refinement.{Call, AllFit, Separates, accesses, run_calls, run_calls-answers}
use canary_gate.Store.ConfigMap.{
  ConfigMapStore, config_map_store, get_config_map_name, get_config_map_namespace, gate_value,
}
use canary_gate.Store.ConfigMap.Naming.{same_map, same_map-own_namespace}
use canary_gate.Store.ConfigMap.Fields.{IsValid}
use canary_gate.Store.ConfigMap.Update.{event_of}
use canary_gate.Store.ConfigMap.Gates.{IsGate, view, config_map_store-IsGateStore}

module _ {S : Type 0} (st : ConfigMapStore S) (rel : IsReliable st.client)
    (bound : IsBounded st.retry) where
  -- Where no namespace is configured, different keys are kept apart.
  gates_apart :
      (k j : StoreKey) → st.config_ns ≡ "" → k ≢ j → (same_map st k j && (k.type == j.type)) ≡ false
  gates_apart k j own ne = elim (Bool-cases (same_map st k j && (k.type == j.type))) [
    | inl both ↦
        let (map, type) = and_true (same_map st k j) (k.type == j.type) both in
        let (ns, name) = same_map-own_namespace st k j own map in
        absurd (ne (StoreKey-ext k j ns name ((eq_iff _ _).0 type)))
    | inr apart ↦ apart
  ]

  canaries_aside :
      (k j : StoreKey) → st.config_ns ≡ "" → canary_eq k j ≡ false → same_map st k j ≡ false
  canaries_aside k j own e = elim (Bool-cases (same_map st k j)) [
    | inl same ↦
        let (ns, name) = same_map-own_namespace st k j own same in
        absurd (canary_eq-false k j e ns name)
    | inr aside ↦ aside
  ]

  pub view-Separates : st.config_ns ≡ "" → Separates (view st rel bound)
  unfolding get_config_map_namespace get_config_map_name
  view-Separates own = record {
    apart = λ k j g g' ne. gates_apart k j own ne;
    aside = λ k j e. canaries_aside k j own e;
    shared = λ s k j e.
        let (ns, name) = canary_eq-true k j e in
        ap₂ (λ ns n. event_of st rel bound s (record k { namespace = ns; name = n })) ns name;
  }

  -- While the API server is reliable, holds no ConfigMap of the store and no namespace is configured,
  -- the ConfigMap store answers any calls on gates and canaries as a map of gates and a map of events
  -- do, in which each gate starts with the default of its type and each event empty.
  pub config_map_store-answers :
      (calls : List Call) (s : S)
      → st.config_ns ≡ ""
      → ((k : StoreKey)
          → rel.stored s (get_config_map_namespace st k) (get_config_map_name k) ≡ none)
      → AllFit (IsGate st rel bound) (λ k. Unit {0}) calls
      → Ends
          (run_calls (config_map_store st) calls)
          s
          (answers default_book (accesses calls))
          (IsValid st rel bound)
  unfolding gate_value
  config_map_store-answers calls s own empty all =
      run_calls-answers (config_map_store st) (view st rel bound)
        (config_map_store-IsGateStore st rel bound) (view-Separates own) calls s default_book
        (record { has_data = λ k. rw (empty k) tt })
        (record { gates = λ j g. rw (empty j) refl; events = λ j n. rw (empty j) refl }) all
