-- ===== src/StateMachine/TransferLaws.antt =====
-- dsp/statemachine/transfer_request_transitions.go: what `Recv` and `Send` guarantee of a transfer
-- request.
use native.Mathlib.Omega.{arith}
use run_dsp.Prelude.{String, is_some, some, Option, none, ◌≡◌, ◌≢◌, refl, true, false}
use run_dsp.Extern.{Extern}
use run_dsp.Shared.TransferMessages.{
  TransferMessage, DataAddress, TransferCompletionMessage, TransferRequestMessage,
  TransferStartMessage,
}
use run_dsp.Transfer.State.{State}
use run_dsp.Transfer.Request.{Request}
use run_dsp.StateMachine.TransferRecv.{
  Env, Session, recv, recv_in, recv_request, recv_start, recv_completion,
}
use run_dsp.StateMachine.TransferTriple.{
  Tracks, Accepted, Ends, IsKnown, Accepts, Steps-get, Accepts-raise, Accepts-bind, Accepts-verify,
  Steps-unpublish_transfer, Steps-check_dataset, Steps-new_provider_pid, Steps-learn_provider,
  Steps-learn_publish_info,
}

-- What a message asks for, and the PIDs that it carries; a request carries no provider PID.
abbrev pub message_state : (x : Extern) → TransferMessage x → State
message_state x (TransferMessage.request t) = State.requested
message_state x (TransferMessage.start t) = State.started
message_state x (TransferMessage.completion t) = State.completed
message_state x (TransferMessage.termination t) = State.terminated
message_state x (TransferMessage.suspension t) = State.suspended
message_state x TransferMessage.other = State.initial

abbrev pub message_consumer : (x : Extern) → TransferMessage x → String
message_consumer x (TransferMessage.request t) = t.consumer_pid
message_consumer x (TransferMessage.start t) = t.consumer_pid
message_consumer x (TransferMessage.completion t) = t.consumer_pid
message_consumer x (TransferMessage.termination t) = t.consumer_pid
message_consumer x (TransferMessage.suspension t) = t.consumer_pid
message_consumer x TransferMessage.other = ""

ruleset transfer_rules = (
  Accepts-bind, Accepts-raise, Accepts-verify, Steps-get, Steps-check_dataset,
  Steps-new_provider_pid, Steps-learn_provider, Steps-learn_publish_info, Steps-unpublish_transfer,
)

-- What `Recv` takes for granted: a start message has a data address unless the publishing information
-- is known, and a completed transfer has a known direction.
abbrev pub IsComplete : (x : Extern) → TransferMessage x → Request x → Type 0
IsComplete x (TransferMessage.start t) tr = is_some t.data_address ≡ true
IsComplete x (TransferMessage.completion t) tr = IsKnown tr.transfer_direction
IsComplete x _ tr = Unit

module _ (x : Extern) (env : Env x) (start : Request x) where
  Accepts-recv_request :
      (t : TransferRequestMessage)
      → Accepts x env start t.consumer_pid State.requested (recv_request x env t)
  unfolding recv_request
  Accepts-recv_request t = search transfer_rules

  Accepts-recv_start :
      (t : TransferStartMessage) (o : Option DataAddress)
      → t.data_address ≡ o
      → is_some o ≡ true
      → Accepts x env start t.consumer_pid State.started (recv_start x env t)
  unfolding recv_start
  Accepts-recv_start t none e k = cc
  Accepts-recv_start t (some d) e k = rw e (search transfer_rules)

  Accepts-recv_completion :
      (t : TransferCompletionMessage)
      → IsKnown start.transfer_direction
      → Accepts x env start t.consumer_pid State.completed (recv_completion x env t)
  unfolding recv_completion
  Accepts-recv_completion t known = search transfer_rules

  abbrev AcceptsMessage : State → TransferMessage x → Type 0
  AcceptsMessage s m =
      Accepts x env start (message_consumer x m) (message_state x m) (recv_in x env s m)

  Accepts-started : (m : TransferMessage x) → IsComplete x m start → AcceptsMessage State.started m
  unfolding recv_in
  Accepts-started (TransferMessage.completion t) k = Accepts-recv_completion t k
  Accepts-started (TransferMessage.termination t) k = search transfer_rules
  Accepts-started _ k = search transfer_rules

  Accepts-requested :
      (m : TransferMessage x) → IsComplete x m start → AcceptsMessage State.requested m
  unfolding recv_in
  Accepts-requested (TransferMessage.start t) k = Accepts-recv_start t t.data_address refl k
  Accepts-requested (TransferMessage.termination t) k = search transfer_rules
  Accepts-requested _ k = search transfer_rules

  Accepts-initial : (m : TransferMessage x) → AcceptsMessage State.initial m
  unfolding recv_in
  Accepts-initial (TransferMessage.request t) = Accepts-recv_request t
  Accepts-initial _ = search transfer_rules

  Accepts-recv_in :
      (s : State) (m : TransferMessage x)
      → s ≢ State.suspended
      → IsComplete x m start
      → AcceptsMessage s m
  unfolding recv_in
  Accepts-recv_in State.initial m n k = Accepts-initial m
  Accepts-recv_in State.requested m n k = Accepts-requested m k
  Accepts-recv_in State.started m n k = Accepts-started m k
  Accepts-recv_in State.suspended m n k = absurd (n refl)
  Accepts-recv_in State.completed m n k = search transfer_rules
  Accepts-recv_in State.terminated m n k = search transfer_rules

module _ (x : Extern) (env : Env x) where
  -- `Recv` of a writable transfer request that is not SUSPENDED does not panic, if a start message has
  -- a data address and a completion message finds a known direction. If it accepts the message, then
  -- the request is in the state that the message asks for, by a change that its table allows, and its
  -- consumer PID is that of the message; if it returns an error, the state is as before. Either way
  -- the consumer PID, the agreement, the target, the
  -- role, the direction and a provider PID that was known stay as they were.
  pub recv_transfer_sound :
      (m : TransferMessage x) (s : Session x)
      → s.request.ro ≡ false
      → s.request.state ≢ State.suspended
      → IsComplete x m s.request
      → Ends x
          (Accepted x (message_consumer x m) (message_state x m) s.request)
          (Tracks x s.request)
          (recv x env m s)
  unfolding recv
  recv_transfer_sound m s w n k =
      (Accepts-recv_in x env s.request s.request.state m n k).at s (ground arith)
