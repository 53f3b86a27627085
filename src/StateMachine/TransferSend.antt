-- ===== src/StateMachine/TransferSend.antt =====
-- dsp/statemachine/transfer_messages.go, and `Send` of each state in transfer_request_transitions.go.
use run_dsp.Prelude.{String, Option, none, some, List, [], ◌∷◌, if◌then◌else◌}
use run_dsp.Exec.{ok, err, panicked, pure, raise, panic, get, modify, ◌>>=◌, ◌>>◌}
use run_dsp.Extern.{Extern}
use run_dsp.Role.{is_consumer}
use run_dsp.Jsonld.{get_dsp_context}
use run_dsp.Shared.TransferMessages.{
  TransferMessage, DataAddress, TransferRequestMessage, TransferStartMessage,
  TransferCompletionMessage,
}
use run_dsp.Transfer.State.{State, Direction, state_string}
use run_dsp.Transfer.Request.{Request, PublishInfo, set_publish_info}
use run_dsp.StateMachine.PublishInfo.{publish_info_to_data_address}
use run_dsp.StateMachine.Env.{ReconciliationEntry, ReconciliationType}
use run_dsp.StateMachine.ContractSend.{auth_header}
use run_dsp.StateMachine.TransferRecv.{
  Env, unknown_direction, publish_failed, no_publish_info, invalid_message, published, Transition,
  lift_set, unpublish_transfer,
}

-- The function that `Send` returns: nothing, or an entry for the reconciler.
pub data Apply (x : Extern) : Type 0 where
  nothing : Apply x
  add_entry : ReconciliationEntry x → Apply x

module _ (x : Extern) where
  unfoldable pub request_message : Option DataAddress → Request x → TransferRequestMessage
  request_message d tr = record {
    context = get_dsp_context;
    type = "dspace:TransferRequestMessage";
    agreement_id = x.urn tr.agreement_id;
    format = tr.format;
    data_address = d;
    callback_address = x.url_string tr.self;
    consumer_pid = x.urn tr.consumer_pid;
  }

  unfoldable pub start_message : DataAddress → Request x → TransferStartMessage
  start_message d tr = record {
    context = get_dsp_context;
    type = "dspace:TransferStartMessage";
    provider_pid = x.urn tr.provider_pid;
    consumer_pid = x.urn tr.consumer_pid;
    data_address = some d;
  }

  unfoldable pub completion_message : Request x → TransferCompletionMessage
  completion_message tr = record {
    context = get_dsp_context;
    type = "dspace:TransferCompletionMessage";
    provider_pid = x.urn tr.provider_pid;
    consumer_pid = x.urn tr.consumer_pid;
  }

  -- `makeTransferRequestFunction`, with the entry of `makeRequestFunction`.
  unfoldable pub make_entry :
      Request x → (path : List String) → (body : String) → State → ReconciliationEntry x
  make_entry tr path body target = record {
    entity_id = if is_consumer tr.role then tr.consumer_pid else tr.provider_pid;
    type = ReconciliationType.transfer_request;
    role = tr.role;
    target_state = state_string target;
    method = "POST";
    url = x.join_path tr.callback path;
    body = body;
    auth_header_value = auth_header x tr.requester_info;
  }

  -- The PID of the other party.
  abbrev pub remote_pid : Request x → x.Uuid
  remote_pid tr = if is_consumer tr.role then tr.provider_pid else tr.consumer_pid

module _ (x : Extern) (env : Env x) where
  -- `publishInfoToDataAddress`, whose only failure is a panic.
  data_address : Option PublishInfo → Transition x env DataAddress
  data_address pi s = elim (publish_info_to_data_address pi) [
    | ok d ↦ (ok d, s)
    | err e ↦ (panicked, s)
    | panicked ↦ (panicked, s)
  ]

  send_message : TransferMessage x → (path : List String) → State → Transition x env (Apply x)
  unfolding make_entry
  send_message m path target s = elim (env.marshal m) [
    | none ↦ (err invalid_message, s)
    | some body ↦ (ok (add_entry (make_entry x s.request path body target)), s)
  ]

  -- The data address that a push request has to carry.
  push_address : Direction → Option PublishInfo → Transition x env (Option DataAddress)
  unfolding data_address
  push_address Direction.push none = raise no_publish_info
  push_address Direction.push pi = do d ← data_address pi; pure (some d)
  push_address _ pi = pure none

  unfoldable pub send_transfer_request : Transition x env (Apply x)
  unfolding send_message push_address
  send_transfer_request = do
    tr ← get (λ s. s.request)
    d ← push_address tr.transfer_direction tr.publish_info
    send_message (TransferMessage.request (request_message x d tr)) ("transfers" ∷ "request" ∷ [])
        State.requested

  -- The data address is made before the test that there is publishing information, so that without it
  -- the test is not reached.
  unfoldable pub send_transfer_start : Transition x env (Apply x)
  unfolding send_message data_address
  send_transfer_start = do
    tr ← get (λ s. s.request)
    d ← data_address tr.publish_info
    send_message (TransferMessage.start (start_message x d tr))
        ("transfers" ∷ x.uuid_string (remote_pid x tr) ∷ "start" ∷ []) State.started

  unfoldable pub send_transfer_completion : Transition x env (Apply x)
  unfolding send_message
  send_transfer_completion = do
    tr ← get (λ s. s.request)
    send_message (TransferMessage.completion (completion_message x tr))
        ("transfers" ∷ x.uuid_string (remote_pid x tr) ∷ "completion" ∷ []) State.completed

  -- What `PublishDataset` answers: `none` is an error.
  take_answer : Option (Option PublishInfo) → Transition x env Unit
  take_answer none = raise publish_failed
  take_answer (some pi) = lift_set x env (set_publish_info x pi)

  publish_in : Direction → Transition x env Unit
  unfolding take_answer
  publish_in Direction.pull = do
    tr ← get (λ s. s.request)
    modify (λ s. record s { calls = published tr.target (x.uuid_string tr.provider_pid) ∷ s.calls })
    take_answer (env.publish_dataset tr.target (x.uuid_string tr.provider_pid))
  publish_in Direction.push = pure tt
  publish_in Direction.unknown = raise unknown_direction
  publish_in (Direction.invalid _) = panic

  unfoldable pub send_requested : Transition x env (Apply x)
  unfolding publish_in
  send_requested = do λ s. publish_in s.request.transfer_direction s; send_transfer_start

  unfoldable pub send_started : Transition x env (Apply x)
  send_started = do unpublish_transfer x env; send_transfer_completion

  -- `Send` of the state that `GetTransferRequestNegotiation` selects, which panics for SUSPENDED.
  unfoldable pub send_in : State → Transition x env (Apply x)
  unfolding send_transfer_request send_requested send_started
  send_in State.initial = send_transfer_request
  send_in State.requested = send_requested
  send_in State.started = send_started
  send_in State.completed = pure nothing
  send_in State.terminated = pure nothing
  send_in State.suspended = panic

  unfoldable pub send : Transition x env (Apply x)
  unfolding send_in
  send s = send_in s.request.state s
