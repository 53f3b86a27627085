-- ===== src/Shared.antt =====
-- dsp/shared: the messages of the protocol.
pub mod Messages
pub mod Ids
pub mod Urns
pub mod Validation
pub mod StateNames
pub mod Catalog
pub mod TransferMessages
