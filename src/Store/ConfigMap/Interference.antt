-- ===== src/Store/ConfigMap/Interference.antt =====
-- Calls on the ConfigMap store while other clients write to its ConfigMaps.
use canary_gate.Kube.Journal
use canary_gate.Store.ConfigMap.Writes
use canary_gate.Store.ConfigMap.Writes.{Writes}
