-- ===== src/Inventory.antt =====
-- pkg/provideradapter: the inventory protocol between the core and the adapters.
pub mod Requests
pub mod Receipts
pub mod Coverage
pub mod Canonical
pub mod Reorder
pub mod Sorted
pub mod Accepts
pub mod Examples
