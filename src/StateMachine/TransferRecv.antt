-- ===== src/StateMachine/TransferRecv.antt =====
-- dsp/statemachine/transfer_request_transitions.go: `Recv` of each state of a transfer request. The
-- next state that the source returns beside a nil error is the request itself, in its new state.
use run_dsp.Prelude.{
  String, Bool, true, false, not, ◌||◌, Option, none, some, List, ◌∷◌, str_eq, is_some,
  if◌then◌else◌,
}
use run_dsp.Exec.{Outcome, ok, err, panicked, Exec, pure, raise, panic, get, modify, ◌>>=◌, ◌>>◌}
use run_dsp.Extern.{Extern}
use run_dsp.Role.{is_consumer, is_provider}
use run_dsp.Shared.TransferMessages.{
  TransferMessage, DataAddress, TransferRequestMessage, TransferStartMessage,
  TransferCompletionMessage,
}
use run_dsp.Transfer.State.{State, Direction}
use run_dsp.Transfer.Request.{
  Request, PublishInfo, SetError, set_provider_pid, set_publish_info, set_state,
}
use run_dsp.StateMachine.PublishInfo.{AddressError, data_address_to_publish_info}

-- The answers of what a transition calls: whether the provider knows a dataset, what publishing a
-- dataset returns (`none` for an error), whether shutting a transfer down succeeds, `uuid.New`, and
-- `shared.ValidateAndMarshal`.
pub record Env (x : Extern) : Type 0 where
  pub get_dataset : String → Bool
  pub publish_dataset : (dataset_id publish_id : String) → Option (Option PublishInfo)
  pub shutdown_transfer : String → Bool
  pub new_uuid : x.Uuid
  pub marshal : TransferMessage x → Option String

pub data Error : Type 0 where
  invalid_message_type : Error
  could_not_set : SetError → Error
  target_not_found : Error
  invalid_uuid : Error
  invalid_data_address : AddressError → Error
  provider_pid_mismatch : Error
  consumer_pid_mismatch : Error
  final_state : Error
  unknown_direction : Error
  publish_failed : Error
  shutdown_failed : Error
  no_publish_info : Error
  invalid_message : Error

-- The calls that change something at the provider.
pub data ProviderCall : Type 0 where
  published : (dataset_id publish_id : String) → ProviderCall
  shut_down : String → ProviderCall
  received : (dataset_id : String) → ProviderCall

-- A transition works on the request, and makes calls, the latest first.
pub record Session (x : Extern) : Type 0 where
  pub request : Request x
  pub calls : List ProviderCall

abbrev set_outcome : Outcome SetError (Unit {0}) → Outcome Error (Unit {0})
set_outcome (ok a) = ok a
set_outcome (err e) = err (could_not_set e)
set_outcome panicked = panicked

abbrev address_outcome : Outcome AddressError PublishInfo → Outcome Error PublishInfo
address_outcome (ok a) = ok a
address_outcome (err e) = err (invalid_data_address e)
address_outcome panicked = panicked

module _ (x : Extern) (env : Env x) where
  abbrev pub Transition : Type 0 → Type 0
  Transition A = Exec Error (Session x) A

  abbrev pub lift_set : Exec SetError (Request x) (Unit {0}) → Transition (Unit {0})
  lift_set m s = let (r, tr) = m s.request in (set_outcome r, record s { request = tr })

  abbrev pub guard : Bool → Error → Transition Unit
  guard true e = pure tt
  guard false e = raise e

  abbrev pub when : Bool → Transition Unit → Transition Unit
  when true m = m
  when false m = pure tt

  abbrev pub is_nil : x.Uuid → Bool
  is_nil u = x.eq_uuid u x.nil_uuid

  -- `GetTransferRequestNegotiation`: there is no negotiation state for SUSPENDED, and it panics.
  abbrev pub has_negotiation_state : State → Bool
  has_negotiation_state State.suspended = false
  has_negotiation_state _ = true

  abbrev pub select_state : Transition Unit
  select_state s = if has_negotiation_state s.request.state then (ok tt, s) else (panicked, s)

  -- `verifyAndTransformTransfer`
  unfoldable pub verify_and_transform :
      (provider_pid consumer_pid : String) → State → Transition Unit
  verify_and_transform ppid cpid target = do
    ours ← get (λ s. s.request)
    guard (str_eq (x.urn ours.provider_pid) (x.to_lower ppid)) provider_pid_mismatch
    guard (str_eq (x.urn ours.consumer_pid) (x.to_lower cpid)) consumer_pid_mismatch
    lift_set (set_state x target)
    select_state

  -- A call of `ShutdownTransfer` for the given PID.
  abbrev shut_down_as : x.Uuid → Transition Unit
  shut_down_as pid = do
    modify (λ s. record s { calls = shut_down (x.uuid_string pid) ∷ s.calls })
    guard (env.shutdown_transfer (x.uuid_string pid)) shutdown_failed

  unfoldable pub unpublish_in : Direction → Request x → Transition Unit
  unpublish_in Direction.pull tr = when (is_provider tr.role) (shut_down_as tr.provider_pid)
  unpublish_in Direction.push tr = when (is_consumer tr.role) (shut_down_as tr.consumer_pid)
  unpublish_in Direction.unknown tr = raise unknown_direction
  unpublish_in (Direction.invalid _) tr = panic

  -- `unpublishTransfer`
  unfoldable pub unpublish_transfer : Transition Unit
  unfolding unpublish_in
  unpublish_transfer s = unpublish_in s.request.transfer_direction s.request s

  unfoldable pub recv_request : TransferRequestMessage → Transition Unit
  recv_request t = do
    λ s.
        guard (not (str_eq s.request.format "HTTP_PULL") || env.get_dataset s.request.target)
          target_not_found s
    λ s. when (is_nil s.request.provider_pid) (lift_set (set_provider_pid x env.new_uuid)) s
    ours ← get (λ s. s.request)
    verify_and_transform (x.urn ours.provider_pid) t.consumer_pid State.requested

  -- The provider PID of a start message, if ours is not known yet.
  abbrev pub learn_provider : String → Transition Unit
  learn_provider s cn = elim (x.parse_uuid s) [
    | none ↦ raise invalid_uuid cn
    | some u ↦ lift_set (set_provider_pid x u) cn
  ]

  abbrev pub learn_publish_info : Option DataAddress → Transition Unit
  learn_publish_info d = do
    pi ← λ s. (address_outcome (data_address_to_publish_info d), s)
    lift_set (set_publish_info x (some pi))

  unfoldable pub recv_start : TransferStartMessage → Transition Unit
  recv_start t = do
    λ s. when (is_nil s.request.provider_pid) (learn_provider t.provider_pid) s
    λ s. when (not (is_some s.request.publish_info)) (learn_publish_info t.data_address) s
    verify_and_transform t.provider_pid t.consumer_pid State.started

  unfoldable pub recv_completion : TransferCompletionMessage → Transition Unit
  recv_completion t = do
    unpublish_transfer
    verify_and_transform t.provider_pid t.consumer_pid State.completed

  -- `Recv` of the state that `GetTransferRequestNegotiation` selects, which panics for SUSPENDED.
  unfoldable pub recv_in : State → TransferMessage x → Transition Unit
  unfolding recv_request recv_start recv_completion
  recv_in State.initial (TransferMessage.request t) = recv_request t
  recv_in State.initial _ = raise invalid_message_type
  recv_in State.requested (TransferMessage.start t) = recv_start t
  recv_in State.requested (TransferMessage.termination t) =
      verify_and_transform t.provider_pid t.consumer_pid State.terminated
  recv_in State.requested _ = raise invalid_message_type
  recv_in State.started (TransferMessage.completion t) = recv_completion t
  recv_in State.started (TransferMessage.termination t) =
      verify_and_transform t.provider_pid t.consumer_pid State.terminated
  recv_in State.started _ = raise invalid_message_type
  recv_in State.completed _ = raise final_state
  recv_in State.terminated _ = raise final_state
  recv_in State.suspended _ = panic

  unfoldable pub recv : TransferMessage x → Transition Unit
  unfolding recv_in
  recv m s = recv_in s.request.state m s
