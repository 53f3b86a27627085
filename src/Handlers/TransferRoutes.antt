-- ===== src/Handlers/TransferRoutes.antt =====
-- dsp/transfer_handlers.go: the handlers that only choose a role and whether the next message is made at
-- once, from a decoded message on, and the one that reads a transfer. `raw` is the PID in the path.
use run_dsp.Prelude.{ℕ, String, true, false, Option, none, some}
use run_dsp.Exec.{Outcome, ok, err, panicked}
use run_dsp.Extern.{Extern}
use run_dsp.Role.{DataspaceRole, consumer, provider}
use run_dsp.Shared.TransferMessages.{
  TransferMessage, TransferStartMessage, TransferCompletionMessage, TransferTerminationMessage,
  TransferProcess,
}
use run_dsp.Transfer.Request.{Request, get_transfer_process}
use run_dsp.Handlers.Transfers.{Service, Handler, progress_transfer_state}

module _ (x : Extern) (v : Service x) where
  unfoldable pub provider_transfer_start :
      (raw : String) → TransferStartMessage → Handler x v TransferProcess
  provider_transfer_start raw t =
      progress_transfer_state x v provider raw false (TransferMessage.start t)

  unfoldable pub provider_transfer_completion :
      (raw : String) → TransferCompletionMessage → Handler x v TransferProcess
  provider_transfer_completion raw t =
      progress_transfer_state x v provider raw true (TransferMessage.completion t)

  unfoldable pub provider_transfer_termination :
      (raw : String) → TransferTerminationMessage x → Handler x v TransferProcess
  provider_transfer_termination raw t =
      progress_transfer_state x v provider raw true (TransferMessage.termination t)

  unfoldable pub consumer_transfer_start :
      (raw : String) → TransferStartMessage → Handler x v TransferProcess
  consumer_transfer_start raw t =
      progress_transfer_state x v consumer raw false (TransferMessage.start t)

  unfoldable pub consumer_transfer_completion :
      (raw : String) → TransferCompletionMessage → Handler x v TransferProcess
  consumer_transfer_completion raw t =
      progress_transfer_state x v consumer raw true (TransferMessage.completion t)

  unfoldable pub consumer_transfer_termination :
      (raw : String) → TransferTerminationMessage x → Handler x v TransferProcess
  consumer_transfer_termination raw t =
      progress_transfer_state x v consumer raw true (TransferMessage.termination t)

module _ (x : Extern) where
  answer_found : Option (Request x) → Outcome ℕ TransferProcess
  answer_found none = err 404
  answer_found (some tr) = ok (get_transfer_process x tr)

  -- `providerTransferProcessHandler`, where `find` reads a transfer without locking it; `transferError`
  -- panics on the nil request. The error is the HTTP status.
  unfoldable pub provider_transfer_process :
      (find : DataspaceRole → x.Uuid → Option (Request x))
      → (raw : String) → Outcome ℕ TransferProcess
  unfolding answer_found
  provider_transfer_process find raw = elim (x.parse_uuid raw) [
    | none ↦ panicked
    | some pid ↦ answer_found (find provider pid)
  ]
