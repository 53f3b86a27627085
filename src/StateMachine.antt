-- ===== src/StateMachine.antt =====
-- dsp/statemachine: what a party does on a message, and what it sends.
pub mod Env
pub mod ContractRecv
pub mod ContractSend
pub mod Triple
pub mod RecvLaws
pub mod Peers
pub mod Exchange
pub mod PublishInfo
pub mod TransferRecv
pub mod TransferSend
pub mod TransferTriple
pub mod TransferLaws
pub mod Shutdowns
pub mod Updater
pub mod Reconciler
pub mod Histories
pub mod Locks
pub mod GivingUp
pub mod Acknowledgement
pub mod Queue
