-- ===== src/Compensator.antt =====
-- pkg/compensator: tasks that are stored with a business transaction and run until they succeed.
pub mod Store
pub mod Worker
pub mod Transactions
pub mod Pool
mod Examples
