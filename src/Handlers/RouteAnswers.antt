-- ===== src/Handlers/RouteAnswers.antt =====
-- dsp/transfer_handlers.go: the responses of the handlers to a message on a transfer.
use run_dsp.Prelude.{String, ◌≡◌, ◌≢◌, refl, Bool, true, false, some}
use run_dsp.Extern.{Extern}
use run_dsp.Role.{DataspaceRole, consumer, provider}
use run_dsp.Shared.TransferMessages.{
  TransferMessage, TransferStartMessage, TransferCompletionMessage, TransferTerminationMessage,
  TransferProcess,
}
use run_dsp.Transfer.State.{State}
use run_dsp.Transfer.Request.{Request}
use run_dsp.StateMachine.TransferLaws.{IsComplete}
use run_dsp.Handlers.Answers.{IsParty}
use run_dsp.Handlers.Transfers.{Log, Service, Handler, progress_transfer_state}
use run_dsp.Handlers.TransferAnswers.{
  Answers, AnswersFor, Handles, process_transfer_message-Answers,
}
use run_dsp.Handlers.TransferRoutes.{
  provider_transfer_start, provider_transfer_completion, provider_transfer_termination,
  consumer_transfer_start, consumer_transfer_completion, consumer_transfer_termination,
}

-- A message, at the handler that it comes to.
pub data Arrival (x : Extern) : Type 0 where
  provider_start consumer_start : TransferStartMessage → Arrival x
  provider_completion consumer_completion : TransferCompletionMessage → Arrival x
  provider_termination consumer_termination : TransferTerminationMessage x → Arrival x

abbrev pub party : {x : Extern} → Arrival x → DataspaceRole
party (provider_start t) = provider
party (provider_completion t) = provider
party (provider_termination t) = provider
party (consumer_start t) = consumer
party (consumer_completion t) = consumer
party (consumer_termination t) = consumer

abbrev pub message : (x : Extern) → Arrival x → TransferMessage x
message x (provider_start t) = TransferMessage.start t
message x (provider_completion t) = TransferMessage.completion t
message x (provider_termination t) = TransferMessage.termination t
message x (consumer_start t) = TransferMessage.start t
message x (consumer_completion t) = TransferMessage.completion t
message x (consumer_termination t) = TransferMessage.termination t

abbrev pub handle :
    (x : Extern) (v : Service x) → Arrival x → (raw : String) → Handler x v TransferProcess
handle x v (provider_start t) raw = provider_transfer_start x v raw t
handle x v (provider_completion t) raw = provider_transfer_completion x v raw t
handle x v (provider_termination t) raw = provider_transfer_termination x v raw t
handle x v (consumer_start t) raw = consumer_transfer_start x v raw t
handle x v (consumer_completion t) raw = consumer_transfer_completion x v raw t
handle x v (consumer_termination t) raw = consumer_transfer_termination x v raw t

module _ (x : Extern) (v : Service x) where
  progressed :
      (role : DataspaceRole) (raw : String) (auto : Bool) (m : TransferMessage x) (l : Log x)
      {pid : x.Uuid} {tr : Request x}
      → IsParty role
      → Handles m auto
      → x.parse_uuid raw ≡ some pid
      → v.get_transfer l role pid ≡ some tr
      → IsParty tr.role
      → tr.ro ≡ false
      → tr.state ≢ State.suspended
      → IsComplete x m tr
      → Answers (AnswersFor x m tr) (progress_transfer_state x v role raw auto m l)
  unfolding progress_transfer_state
  progressed role raw auto m l {pid = pid} d k u g p w n c =
      rw (progress_transfer_state, u)
        (process_transfer_message-Answers x v role pid auto m l d k g p w n c)

  -- Each of the handlers for a start, completion or termination message, of the provider or the consumer,
  -- does not panic, where the PID of the path is a UUID by which the store gives out a writable request
  -- that is not SUSPENDED, of a consumer or a provider, if a start message has a data address and a
  -- completed transfer a known direction. Its errors have status 400 or 500. A response without an error
  -- is the process of a request that has accepted the message: it is in the state that the message asks
  -- for, by an allowed change, with the consumer PID of the message.
  pub handle-Answers :
      (a : Arrival x) (raw : String) (l : Log x) {pid : x.Uuid} {tr : Request x}
      → x.parse_uuid raw ≡ some pid
      → v.get_transfer l (party a) pid ≡ some tr
      → IsParty tr.role
      → tr.ro ≡ false
      → tr.state ≢ State.suspended
      → IsComplete x (message x a) tr
      → Answers (AnswersFor x (message x a) tr) (handle x v a raw l)
  unfolding provider_transfer_start provider_transfer_completion provider_transfer_termination
      consumer_transfer_start consumer_transfer_completion consumer_transfer_termination
  handle-Answers (provider_start t) raw l = progressed provider raw false _ l tt refl
  handle-Answers (provider_completion t) raw l = progressed provider raw true _ l tt refl
  handle-Answers (provider_termination t) raw l = progressed provider raw true _ l tt refl
  handle-Answers (consumer_start t) raw l = progressed consumer raw false _ l tt refl
  handle-Answers (consumer_completion t) raw l = progressed consumer raw true _ l tt refl
  handle-Answers (consumer_termination t) raw l = progressed consumer raw true _ l tt refl
