-- ===== src/Store/Crd/Histories.antt =====
-- Any history of calls on a CanaryGate store.
use canary_gate.Prelude.{
  ap₂, ◌≡◌, ◌≢◌, refl, true, false, ◌&&◌, List, inl, inr, ◌==◌, eq_iff, and_true, Bool-cases,
}
use canary_gate.Kube.Api.{same-true}
use canary_gate.Store.Defs.{StoreKey, StoreKey-ext}
use canary_gate.Store.Contract.{Ends, canary_eq}
use canary_gate.Store.Book.{answers, canary_eq-true, canary_eq-false}
use canary_gate.Store.Refinement.{Call, AllFit, Separates, accesses, run_calls, run_calls-answers}
use canary_gate.Store.Crd.{CanaryGateStore, canary_gate_store, get_canary_gate_namespace}
use canary_gate.Store.Crd.Place.{IsHealthy, IsValid, same_gate}
use canary_gate.Store.Crd.Gates.{view, gate_of, event_of}
use canary_gate.Store.Crd.Contract.{canary_gate_store-IsGateStore}

module _ {S F U : Type 0} (st : CanaryGateStore S F U) (h : IsHealthy st) where
  -- Where no namespace is configured, two keys of one resource have the same namespace and name.
  pub same_gate-own_namespace :
      (k j : StoreKey)
      → st.config_ns ≡ ""
      → same_gate st h k j ≡ true
      → (k.namespace ≡ j.namespace) × (k.name ≡ j.name)
  unfolding get_canary_gate_namespace
  same_gate-own_namespace k j own here =
      let (ns, name) =
        same-true (get_canary_gate_namespace st k) k.name (get_canary_gate_namespace st j) j.name
          here in
      (rw own at ns, name)

  gates_apart :
      (k j : StoreKey)
      → st.config_ns ≡ ""
      → k ≢ j
      → (same_gate st h k j && (k.type == j.type)) ≡ false
  gates_apart k j own ne = elim (Bool-cases (same_gate st h k j && (k.type == j.type))) [
    | inl both ↦
        let (gate, type) = and_true (same_gate st h k j) (k.type == j.type) both in
        let (ns, name) = same_gate-own_namespace k j own gate in
        absurd (ne (StoreKey-ext k j ns name ((eq_iff _ _).0 type)))
    | inr apart ↦ apart
  ]

  canaries_aside :
      (k j : StoreKey) → st.config_ns ≡ "" → canary_eq k j ≡ false → same_gate st h k j ≡ false
  canaries_aside k j own e = elim (Bool-cases (same_gate st h k j)) [
    | inl same ↦
        let (ns, name) = same_gate-own_namespace k j own same in
        absurd (canary_eq-false k j e ns name)
    | inr aside ↦ aside
  ]

  pub view-Separates : st.config_ns ≡ "" → Separates (view st h)
  unfolding get_canary_gate_namespace
  view-Separates own = record {
    apart = λ k j g g' ne. gates_apart k j own ne;
    aside = λ k j e. canaries_aside k j own e;
    shared = λ s k j e.
        let (ns, name) = canary_eq-true k j e in
        ap₂ (λ ns n. event_of st h s (record k { namespace = ns; name = n })) ns name;
  }

  -- From a valid state, while the API server can be reached and no other client writes, the converter
  -- loses nothing, the recorder leaves the resources alone and no namespace is configured, the CanaryGate
  -- store answers any calls on gates of the seven types and on canaries whose resource is there as a map
  -- of gates and a map of events do, which start as the state shows them.
  pub canary_gate_store-answers :
      (calls : List Call) (s : S)
      → st.config_ns ≡ ""
      → IsValid st h s
      → AllFit (view st h).IsGate h.Managed calls
      → Ends
          (run_calls (canary_gate_store st) calls)
          s
          (answers (record { gates = gate_of st h s; events = event_of st h s }) (accesses calls))
          (IsValid st h)
  canary_gate_store-answers calls s own valid all =
      run_calls-answers (canary_gate_store st) (view st h) (canary_gate_store-IsGateStore st h)
        (view-Separates own) calls s (record { gates = gate_of st h s; events = event_of st h s })
        valid (record { gates = λ j g. refl; events = λ j n. refl }) all
