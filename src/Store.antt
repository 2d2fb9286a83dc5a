-- ===== src/Store.antt =====
-- store/: the stores of the gates. `Defs` has the key and the interface.
pub mod Defs
pub mod Contract
pub mod Book
pub mod Refinement
pub mod Journal
pub mod Requests
pub mod Memory
pub mod ConfigMap
pub mod GateFields
pub mod Crd
