-- ===== src/Kube.antt =====
-- The Kubernetes API and client-go as the stores use them: parameters, with what their documentation
-- promises as named hypotheses.
pub mod Api
pub mod Retry
pub mod Journal
pub mod Requests
