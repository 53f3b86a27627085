-- ===== src/Handlers.antt =====
-- dsp: the HTTP handlers, from a decoded message to the response.
pub mod Contracts
pub mod Http
pub mod Catalog
pub mod ContractLocks
pub mod ContractRoutes
pub mod Answers
pub mod FirstMessages
pub mod Transfers
pub mod NewTransfer
pub mod TransferLocks
pub mod TransferAnswers
pub mod TransferRoutes
pub mod RouteAnswers
