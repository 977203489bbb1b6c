-- ===== src/Snowflake.antt =====
-- pkg/idgen/snowflake: the node that composes IDs, and the leases that guard its worker ID.
pub mod Node
pub mod Leases
pub mod Generator
mod Examples
