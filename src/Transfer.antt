-- ===== src/Transfer.antt =====
-- dsp/transfer: transfer requests.
pub mod State
pub mod Request
pub mod Model
pub mod RoundTrip
