-- ===== src/Control.antt =====
-- dsp/control: the gRPC service by which a dataspace participant controls its negotiations and transfers.
pub mod Code
pub mod Provider
pub mod Catalog
pub mod Fetching
pub mod Waiting
pub mod WaitingEnds
pub mod Completion
pub mod Contracts
pub mod Sending
pub mod Steps
pub mod Transfers
pub mod Pushing
pub mod Starting
