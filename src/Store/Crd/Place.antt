-- ===== src/Store/Crd/Place.antt =====
-- What the calls of the CanaryGate store read and write, while the API server is reliable.
use canary_gate.Prelude.{
  String, ◌≡◌, refl, Bool, Option, none, some, inl, inr, Bool-cases, if◌then◌else◌,
}
use canary_gate.Runtime.Exec.{done}
use canary_gate.Api.{CanaryGate}
use canary_gate.Kube.Api.{ok, err, Reply, Object, IsServing, same}
use canary_gate.Kube.Retry.{IsBounded}
use canary_gate.Store.Defs.{StoreKey}
use canary_gate.Store.Crd.{
  CanaryGateStore, Converter, with_content, get_canary_gate_namespace, get_canary_gate,
  create_canary_gate_and_get,
}

-- A converter that loses nothing: every gate converts, and back to itself.
pub record IsFaithful {F U : Type 0} (c : Converter F U) : Type 0 where
  pub encode : CanaryGate F → U
  pub to_encode : (g : CanaryGate F) → c.to_unstructured g ≡ ok (encode g)
  pub from_encode : (g : CanaryGate F) → c.from_unstructured (encode g) ≡ ok g

-- What the schema of the kind requires is kept: the target and the raw Flagger spec.
abbrev pub KeepsRequired : {F U : Type 0} → Converter F U → U → U → Type 0
KeepsRequired {F} c u u' =
    (g : CanaryGate F) × (g' : CanaryGate F) × (c.from_unstructured u ≡ ok g)
    × (c.from_unstructured u' ≡ ok g')
    × (g'.spec.target ≡ g.spec.target)
    × (g'.spec.flagger ≡ g.spec.flagger)

-- What the store relies on: the keys of the canaries whose resource has been created, the API server, the
-- converter, the retry loop, and a recorder that leaves the gates alone. The object of
-- `CreateCanaryGate` lacks what the schema requires, so nothing is assumed of a resource that is missing.
pub record IsHealthy {S F U : Type 0} (st : CanaryGateStore S F U) : Type 1 where
  pub Managed : StoreKey → Type 0
  pub server : IsServing st.client (KeepsRequired st.converter)
  pub bound : IsBounded st.retry
  pub faithful : IsFaithful st.converter
  pub quiet :
      (g : Object (CanaryGate F)) (status m : String) (s : S) (ns n : String)
      → server.stored (st.recorder g status m s) ns n ≡ server.stored s ns n

module _ {S F U : Type 0} (st : CanaryGateStore S F U) (h : IsHealthy st) where
  abbrev pub ns_of : StoreKey → String
  ns_of = get_canary_gate_namespace st

  abbrev pub stored_for : S → StoreKey → Option (Object U)
  stored_for s k = h.server.stored s (ns_of k) k.name

  abbrev pub HasGate : Option (Object U) → Type 0
  HasGate none = Unit {0}
  HasGate (some o) = (g : CanaryGate F) × (st.converter.from_unstructured o.content ≡ ok g)

  abbrev pub decoded : Reply (CanaryGate F) → Option (CanaryGate F)
  decoded (ok g) = some g
  decoded (err e) = none

  abbrev pub gate_in : Option (Object U) → Option (CanaryGate F)
  gate_in none = none
  gate_in (some o) = decoded (st.converter.from_unstructured o.content)

  -- The gate that is stored for the canary of `k`.
  abbrev pub gate_at : S → StoreKey → Option (CanaryGate F)
  gate_at s k = gate_in (stored_for s k)

  -- The keys `k` and `j` are kept in one resource.
  abbrev pub same_gate : StoreKey → StoreKey → Bool
  same_gate k j = same (ns_of k) k.name (ns_of j) j.name

  -- Every resource of a gate can be converted, and those of the managed keys are there.
  pub record IsValid (s : S) : Type 0 where
    pub has_gate : (k : StoreKey) → HasGate (stored_for s k)
    pub is_there : (k : StoreKey) → h.Managed k → (o : Object U) × (stored_for s k ≡ some o)

  -- `t` is `s` with the gate `g` for the canary of `k`.
  pub record Put (s t : S) (k : StoreKey) (g : CanaryGate F) : Type 0 where
    pub valid : IsValid t
    pub gates : (j : StoreKey) → gate_at t j ≡ (if same_gate k j then some g else gate_at s j)

  module _ (s t : S) (k : StoreKey) (o : Object U) (g : CanaryGate F) where
    module _ (valid : IsValid s) (content : st.converter.from_unstructured o.content ≡ ok g)
        (stored' : (ns n : String)
          → h.server.stored t ns n
            ≡ (if same (ns_of k) k.name ns n then some o else h.server.stored s ns n)) where
      put-HasGate : (j : StoreKey) → HasGate (stored_for t j)
      put-HasGate j = elim (Bool-cases (same_gate k j)) [
        | inl here ↦ rw (stored' (ns_of j) j.name, here) (g, content)
        | inr there ↦ rw (stored' (ns_of j) j.name, there) (valid.has_gate j)
      ]

      put_gates : (j : StoreKey) → gate_at t j ≡ (if same_gate k j then some g else gate_at s j)
      put_gates j = elim (Bool-cases (same_gate k j)) [
        | inl here ↦ rw (stored' (ns_of j) j.name, here, content) refl
        | inr there ↦ rw (stored' (ns_of j) j.name, there) refl
      ]

      put_there : (j : StoreKey) → h.Managed j → (o : Object U) × (stored_for t j ≡ some o)
      put_there j managed = elim (Bool-cases (same_gate k j)) [
        | inl here ↦ (o, rw (stored' (ns_of j) j.name, here) refl)
        | inr there ↦
            let (o', found) = valid.is_there j managed in
            (o', rw (stored' (ns_of j) j.name, there) found)
      ]

      pub put : Put s t k g
      put = record {
        valid = record { has_gate = put-HasGate; is_there = put_there };
        gates = put_gates;
      }

  -- A gate that is there is loaded.
  module _ (s : S) (k : StoreKey) (o : Object U) (g : CanaryGate F)
      (found : stored_for s k ≡ some o)
      (content : st.converter.from_unstructured o.content ≡ ok g) where
    pub get_found : get_canary_gate st k s ≡ (done (ok (with_content o g)), s)
    unfolding get_canary_gate
    get_found = rw (h.server.get_stored s (ns_of k) k.name o found, content) refl

    pub load_found : create_canary_gate_and_get st k s ≡ (done (ok (some (with_content o g))), s)
    unfolding create_canary_gate_and_get
    load_found = rw (h.server.get_stored s (ns_of k) k.name o found, content) refl
