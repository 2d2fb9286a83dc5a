-- ===== src/Tests/Clients.antt =====
-- Stores over a cluster in memory and over an API server that cannot be reached, and what the theorems
-- assume of them.
use canary_gate.Prelude.{String, ◌≡◌, refl, true, some, none, Bool-cases, inl, inr, if◌then◌else◌}
use canary_gate.Api.{CanaryGate}
use canary_gate.Kube.Api.{ApiError, other, ok, err, Resource, same}
use canary_gate.Store.ConfigMap.{Data, ConfigMapStore}
use canary_gate.Store.Crd.{CanaryGateStore, Converter}
use canary_gate.Store.Crd.Place.{IsHealthy, KeepsRequired, IsValid}
use canary_gate.Tests.Cluster.{
  Cluster, cluster_client, strict_client, strict_client-IsServing, five_attempts,
  five_attempts-IsBounded,
}

-- Every call fails.
abbrev pub failing_client : {D : Type 0} → ApiError → Resource (Unit {0}) D
failing_client e = record {
  get = λ ns n s. (err e, s);
  create = λ ns o s. (err e, s);
  update = λ ns o s. (err e, s);
}

abbrev pub map_store : String → ConfigMapStore (Cluster Data)
map_store ns = record { client = cluster_client; retry = five_attempts; config_ns = ns }

abbrev pub Gate : Type 0
Gate = CanaryGate (Unit {0})

-- The unstructured content is the typed one.
abbrev pub plain_converter : Converter (Unit {0}) Gate
plain_converter = record { to_unstructured = ok; from_unstructured = ok }

abbrev pub gate_store : CanaryGateStore (Cluster Gate) (Unit {0}) Gate
gate_store = record {
  client = strict_client;
  converter = plain_converter;
  retry = five_attempts;
  recorder = λ g reason message s. s;
  config_ns = "";
  no_flagger = tt;
}

abbrev pub failing_store : ApiError → CanaryGateStore (Unit {0}) (Unit {0}) Gate
failing_store e = record {
  client = failing_client e;
  converter = plain_converter;
  retry = five_attempts;
  recorder = λ g reason message s. s;
  config_ns = "";
  no_flagger = tt;
}

abbrev pub down_store : CanaryGateStore (Unit {0}) (Unit {0}) Gate
down_store = failing_store (other "timeout")

abbrev pub gate_store-IsHealthy : IsHealthy gate_store
gate_store-IsHealthy = record {
  Managed = λ k. same "app" "pod" k.namespace k.name ≡ true;
  server = strict_client-IsServing (KeepsRequired plain_converter);
  bound = five_attempts-IsBounded;
  faithful = record { encode = λ g. g; to_encode = λ g. refl; from_encode = λ g. refl };
  quiet = λ g reason m s ns n. refl;
}

-- The resource of one canary, with its target.
abbrev pub managed_gate : Gate
managed_gate = record {
  api_version = "piggysec.com/v1alpha1";
  kind = "CanaryGate";
  spec = record {
    confirm_rollout = "";
    pre_rollout = "";
    rollout = "";
    confirm_traffic_increase = "";
    confirm_promotion = "";
    post_rollout = "";
    rollback = "";
    target = record { name = "pod"; namespace = "app" };
    flagger = tt;
  };
  status = record { name = ""; namespace = ""; status = ""; message = ""; target = "" };
}

abbrev pub managed_cluster : Cluster Gate
managed_cluster = record {
  entries = λ ns n. if same "app" "pod" ns n then some (1, managed_gate) else none;
  next = 2;
}

pub managed_cluster-IsValid : IsValid gate_store gate_store-IsHealthy managed_cluster
unfolding canary_gate.Store.Crd.get_canary_gate_namespace
managed_cluster-IsValid = record {
  has_gate = λ k. elim (Bool-cases (same "app" "pod" k.namespace k.name)) [
    | inl here ↦ rw (here, if◌then◌else◌) (managed_gate, refl)
    | inr there ↦ rw (there, if◌then◌else◌) tt
  ];
  is_there = λ k managed. (
    record { namespace = k.namespace; name = k.name; version = 1; content = managed_gate },
    rw (managed, if◌then◌else◌) refl,
  );
}
