-- ===== src/Tests.antt =====
-- Concrete parameters, test data, and the theorems applied to them.
mod Cluster
mod Clients
mod Data
mod Stores
mod Threads
mod Rivals
mod Handlers
mod Reconciles
mod Commands
mod Paths
mod Machine
mod RoundTrip
mod Overview
mod Startup
mod Contention
mod Interference
mod Requests
mod Lifecycle
mod Copies
