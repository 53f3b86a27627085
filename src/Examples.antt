-- ===== src/Examples.antt =====
-- Concrete inputs: an instance of the external code, and the theorems applied to runs of the program.
pub mod World
mod AgreementText
mod Oids
mod Waiting
mod TransferRows
mod Validating
mod Fetching
mod Contracts
mod Transfers
mod Reconciling
mod Handling
mod Storing
mod Controlling
mod Answering
mod Rows
mod Histories
mod Pushing
mod Agreements
