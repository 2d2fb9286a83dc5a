-- ===== src/Handler.antt =====
-- handler/: the HTTP handlers of the webhooks and of the gate API.
pub mod Http
pub mod Payload
pub mod Version
pub mod Flagger
pub mod Steps
pub mod Webhook
pub mod GateApi
pub mod Statuses
pub mod Sequences
pub mod Faults
