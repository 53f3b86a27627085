-- ===== src/Control/Code.antt =====
-- The gRPC status codes that dsp/control returns, and `other` for an error that it passes on as it came.
-- The texts of the errors are left out.
pub data Code : Type 0 where
  invalid_argument unauthenticated not_found failed_precondition aborted unavailable internal
        other :
      Code
