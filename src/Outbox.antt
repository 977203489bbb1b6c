-- ===== src/Outbox.antt =====
-- The outbox of pkg/outbox: messages that are stored with the business data and delivered later.
pub mod Store
pub mod Names
pub mod Shards
pub mod Backoff
pub mod Config
pub mod Transactions
pub mod Examples
