-- ===== src/Sqlite.antt =====
-- dsp/persistence/backends/sqlite: the records of negotiations in the database, and their locks.
pub mod Query
pub mod Database
pub mod Contracts
pub mod Locking
pub mod Releasing
pub mod Reading
pub mod RoundTrip
pub mod Agreements
pub mod TransferQuery
pub mod TransferTable
pub mod Transfers
pub mod TransferTrip
