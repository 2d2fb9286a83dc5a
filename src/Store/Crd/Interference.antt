-- ===== src/Store/Crd/Interference.antt =====
-- Calls on the store of CanaryGate resources while other clients write to its resources.
use canary_gate.Prelude.{String, ◌≡◌, true, false, List, inl, inr}
use canary_gate.Runtime.Safe.{Safe-state, Any}
use canary_gate.Api.{CanaryGate}
use canary_gate.Kube.Api.{Object, Reply-cases}
use canary_gate.Kube.Retry.{IsBounded}
use canary_gate.Kube.Journal
use canary_gate.Kube.Journal.{Grew, unchanged, IsVersioned}
use canary_gate.Store.Defs.{StoreKey, set_message}
use canary_gate.Store.Refinement.{Call, last_event, run_calls}
use canary_gate.Store.Journal.{GrewBy, WritesOnly, run_calls-GrewBy}
use canary_gate.Store.Crd.{
  CanaryGateStore, canary_gate_store, get_canary_gate_namespace, get_canary_gate,
  update_canary_gate, update_event, event_gate, is_gate_open, get_last_event,
}
use canary_gate.Store.Crd.Changes.{with_event, set_gate-with_gate, event_gate-with_event}
use canary_gate.Store.Crd.Writes
use canary_gate.Store.Crd.Writes.{Writes, SetsGate}

module _ {S F U : Type 0} (st : CanaryGateStore S F U) (bound : IsBounded st.retry)
    (ver : IsVersioned st.client)
    (quiet : (g : Object (CanaryGate F)) (reason message : String) (s : S)
      → ver.journal (st.recorder g reason message s) ≡ ver.journal s) where
  get_last_event-Grew :
      (k : StoreKey) (s : S)
      → Grew (Writes st (last_event k)) (ver.journal s) (ver.journal (get_last_event st k s).1)
  unfolding get_last_event get_canary_gate
  get_last_event-Grew k s =
      let ns = get_canary_gate_namespace st k in
      let read =
        (Journal.Keeps-get st.client ver (Writes st (last_event k)) (ver.journal s) ns k.name s
          (unchanged (ver.journal s))).0 in
      elim (Reply-cases (st.client.get ns k.name s).0) [
        | inl (o, e) ↦ elim (Reply-cases (st.converter.from_unstructured o.content)) [
          | inl (g, e') ↦ rw (e, e') read
          | inr (x, e') ↦ rw (e, e') read
        ]
        | inr (x, e) ↦ rw e read
      ]

  canary_gate_store-WritesOnly : WritesOnly (Writes st) (canary_gate_store st) ver.journal
  unfolding canary_gate.Store.Crd.gate_open canary_gate.Store.Crd.gate_close
  canary_gate_store-WritesOnly = record {
    gate_open_writes = λ k s.
        let l = ver.journal s in
        Safe-state (Journal.Wrote st.client ver _ l) Any (update_canary_gate st k true s) (
          Writes.Keeps-update_canary_gate st bound ver quiet k (SetsGate k true) l true
            (λ g. inl (set_gate-with_gate st k true g))
            (λ g. inr (event_gate-with_event st k "Updated" (set_message k true) g)) s
            (unchanged l));
    gate_close_writes = λ k s.
        let l = ver.journal s in
        Safe-state (Journal.Wrote st.client ver _ l) Any (update_canary_gate st k false s) (
          Writes.Keeps-update_canary_gate st bound ver quiet k (SetsGate k false) l false
            (λ g. inl (set_gate-with_gate st k false g))
            (λ g. inr (event_gate-with_event st k "Updated" (set_message k false) g)) s
            (unchanged l));
    is_gate_open_writes = λ k s.
        let l = ver.journal s in
        Safe-state (Journal.Wrote st.client ver _ l) Any (is_gate_open st k s)
          (Writes.Keeps-is_gate_open st bound ver quiet k (λ g g'. ⊥) l s (unchanged l));
    update_event_writes = λ k status message s.
        let l = ver.journal s in
        Safe-state (Journal.Wrote st.client ver _ l) Any (update_event st k status message s) (
          Writes.Keeps-update_event st bound ver quiet k
            (λ g g'. g' ≡ with_event k status message g) l status message
            (event_gate-with_event st k status message) s (unchanged l));
    get_last_event_writes = get_last_event-Grew;
  }

  -- Whatever other clients write to the resources before and between the requests, and where recording
  -- an event writes none of them, any calls on the store of CanaryGate resources have only these writes
  -- accepted, in the order of the calls, also where a call panics: the resource of the key is created
  -- with no gate set, or what it holds at the moment of the write, read as a gate, is changed and
  -- written back. A call that sets a gate sets the field of its type to `opened` or `closed`, keeps
  -- the other fields of the spec, and names the canary in the status, or it keeps the spec and sets the
  -- status to the event of that; a call that records an event keeps the spec and sets the status to it; a call that asks for a gate changes nothing, and one
  -- that asks for the last event writes nothing.
  pub canary_gate_store-GrewBy :
      (calls : List Call) (s : S)
      → GrewBy
          (Writes st)
          calls
          (ver.journal s)
          (ver.journal (run_calls (canary_gate_store st) calls s).1)
  canary_gate_store-GrewBy calls s =
      run_calls-GrewBy (Writes st) (canary_gate_store st) ver.journal canary_gate_store-WritesOnly
        calls s
