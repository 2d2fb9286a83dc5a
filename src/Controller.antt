-- ===== src/Controller.antt =====
-- controller/canarygate.go: the reconciler that writes the Flagger Canary of a CanaryGate.
pub mod Webhooks
pub mod Reconcile
pub mod Laws
pub mod Manager
pub mod Logs
pub mod EventSink
