-- ===== src/Tests/Contention.antt =====
-- A server that rejects one field of a ConfigMap.
use canary_gate.Prelude.{
  ℕ, zero, suc, String, ◌≡◌, refl, false, none, some, [], ◌∷◌, ◌==◌, if◌then◌else◌,
}
use canary_gate.Runtime.Exec.{done}
use canary_gate.Runtime.Dict.{Dict, lookup}
use canary_gate.Kube.Api.{status, conflict, Reply, ok, err}
use canary_gate.Service.{hook_event}
use canary_gate.Store.Defs.{gate_status, set_message}
use canary_gate.Store.ConfigMap.{ConfigMapStore, Data, ConfigMap, or_empty, update_gate}
use canary_gate.Store.ConfigMap.Conflicts.{with_field, update_gate-rejected}
use canary_gate.Tests.Cluster.{five_attempts, five_attempts-IsBounded}
use canary_gate.Tests.Data.{rollout_key}

-- The ConfigMap of a canary, and how often another client still writes first.
pub record Contended : Type 0 where
  pub entries : Dict String
  pub rivals : ℕ

abbrev object_of : Contended → ConfigMap
object_of s = record {
  namespace = "app";
  name = "app-pod-cgate";
  version = s.rivals;
  content = some s.entries;
}

abbrev entries_of : Data → Dict String
entries_of none = []
entries_of (some d) = d

abbrev write_unless : ℕ → ConfigMap → Contended → Reply ConfigMap × Contended
write_unless zero o s = (ok o, record s { entries = entries_of o.content })
write_unless (suc n) o s = (err conflict, record s { rivals = n })

abbrev contended_store : ConfigMapStore Contended
contended_store = record {
  client = record {
    get = λ ns n s. (ok (object_of s), s);
    create = λ ns o s. (ok o, s);
    update = λ ns o s. write_unless s.rivals o s;
  };
  retry = five_attempts;
  config_ns = "";
}

abbrev contended : Contended
contended = record { entries = ("rollout", "opened") ∷ []; rivals = 1 }

abbrev message : String
message = set_message rollout_key false

abbrev rejects_closed : ConfigMap → Contended → Reply ConfigMap × Contended
rejects_closed o s =
    if or_empty (lookup (entries_of o.content) "rollout") == "closed"
    then (err (status "denied"), s)
    else (ok o, record s { entries = entries_of o.content })

abbrev rejecting_store : ConfigMapStore Contended
rejecting_store = record {
  client = record {
    get = λ ns n s. (ok (object_of s), s);
    create = λ ns o s. (ok o, s);
    update = λ ns o s. rejects_closed o s;
  };
  retry = five_attempts;
  config_ns = "";
}

abbrev event_map : ConfigMap
event_map =
    with_field rejecting_store five_attempts-IsBounded rollout_key false (object_of contended)
      contended.entries hook_event message

update_gate-rejected_example :
    update_gate rejecting_store rollout_key false contended
    ≡ (done tt, record contended { entries = entries_of event_map.content })
unfolding canary_gate.Runtime.Dict.insert lookup gate_status
update_gate-rejected_example =
    update_gate-rejected rejecting_store five_attempts-IsBounded rollout_key false contended
      (record contended { entries = entries_of event_map.content }) (object_of contended) event_map
      contended.entries "denied" refl refl refl refl
