-- ===== src/Contract.antt =====
-- dsp/contract: contract negotiations.
pub mod State
pub mod Negotiation
pub mod Paths
pub mod Model
pub mod RoundTrip
