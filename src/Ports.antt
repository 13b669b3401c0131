-- ===== src/Ports.antt =====
-- pkg/providerports: the ports between the domain and the adapters of infrastructure providers.
pub mod Types
pub mod Requests
pub mod Receipts
pub mod Registry
pub mod Adapter
pub mod Conformance
pub mod Issuance
pub mod Replay
pub mod Steps
pub mod Isolation
pub mod Honest
pub mod Digests
pub mod Reorder
pub mod Registered
pub mod Identifiers
pub mod Fulfilment
pub mod SuiteRequests
pub mod Rounds
pub mod Conforms
pub mod Examples
