-- ===== src/Handlers/Transfers.antt =====
-- dsp/transfer_handlers.go: a decoded message is given to the state machine, and the request that results
-- is stored. The writing of the response is left out, and so are the texts of the errors.
use run_dsp.Prelude.{ℕ, String, Bool, true, false, Option, none, some, List, ◌∷◌, if◌then◌else◌}
use run_dsp.Exec.{Outcome, ok, err, panicked, Exec}
use run_dsp.Extern.{Extern}
use run_dsp.Role.{DataspaceRole, undefined}
use run_dsp.Odrl.{Agreement}
use run_dsp.Shared.TransferMessages.{TransferMessage, TransferProcess}
use run_dsp.Transfer.Request.{Request, local_pid, get_transfer_process}
use run_dsp.StateMachine.TransferRecv.{Env, Error, ProviderCall, Session, recv}
use run_dsp.StateMachine.TransferSend.{Apply, nothing, send}

-- The calls of the store, and of the function that `Send` returns, with their success.
pub data Call (x : Extern) : Type 0 where
  locked : Request x → Call x
  saved : Request x → Bool → Call x
  released : Request x → Bool → Call x
  applied : Apply x → Call x

-- The calls so far, of the store and of the provider, the latest first.
pub record Log (x : Extern) : Type 0 where
  pub calls : List (Call x)
  pub provider : List ProviderCall

-- What a handler calls. An answer may depend on all calls before it.
pub record Service (x : Extern) : Type 0 where
  pub env : Env x
  pub get_transfer : Log x → DataspaceRole → x.Uuid → Option (Request x)
  pub put_transfer : Log x → Request x → Bool
  pub get_agreement : Log x → x.Uuid → Option (Agreement x)

-- `TransferError`: the HTTP status, and the transfer request.
pub record TransferError (x : Extern) : Type 0 where
  pub status : ℕ
  pub transfer : Request x

module _ (x : Extern) (v : Service x) where
  abbrev pub Handler : Type 0 → Type 0
  Handler A = Exec (TransferError x) (Log x) A

  abbrev pub note : Call x → Log x → Log x
  note c l = record l { calls = c ∷ l.calls }

  -- `transferError` reads the role and the local PID of its request, which panics for nil, and for an
  -- undefined role.
  unfoldable pub transfer_error : {A : Type 0} → ℕ → Option (Request x) → Handler A
  transfer_error status none l = (panicked, l)
  transfer_error status (some tr) l = elim (local_pid x tr) [
    | none ↦ (panicked, l)
    | some _ ↦ (err (record { status = status; transfer = tr }), l)
  ]

  unfoldable pub store_request : Request x → Handler Unit
  unfolding transfer_error
  store_request tr l =
      if v.put_transfer l tr
      then (ok tt, note (saved tr true) l)
      else transfer_error 500 (some tr) (note (saved tr false) l)

  -- The response, and the goroutine that runs what `Send` returned.
  unfoldable pub answer :
      Apply x
      → Request x
      → Outcome (TransferError x) (Unit {0}) × Log x
      → Outcome (TransferError x) TransferProcess × Log x
  answer af tr (ok _, l) = (ok (get_transfer_process x tr), note (applied af) l)
  answer af tr (err e, l) = (err e, l)
  answer af tr (panicked, l) = (panicked, l)

  -- From what `Send` returns on.
  unfoldable pub after_send :
      Outcome Error (Apply x) × Session x
      → List (Call x)
      → Outcome (TransferError x) TransferProcess × Log x
  unfolding answer
  after_send (ok af, s) c =
      answer af s.request (store_request s.request (record { calls = c; provider = s.calls }))
  after_send (err e, s) c =
      transfer_error 500 (some s.request) (record { calls = c; provider = s.calls })
  after_send (panicked, s) c = (panicked, record { calls = c; provider = s.calls })

  -- From what `Recv` returns on.
  unfoldable pub after_recv :
      (auto_progress : Bool)
      → Outcome Error (Unit {0}) × Session x
      → List (Call x)
      → Outcome (TransferError x) TransferProcess × Log x
  unfolding after_send
  after_recv true (ok _, s) c = after_send (send x v.env s) c
  after_recv false (ok _, s) c = after_send (ok nothing, s) c
  after_recv auto (err e, s) c =
      transfer_error 400 (some s.request) (record { calls = c; provider = s.calls })
  after_recv auto (panicked, s) c = (panicked, record { calls = c; provider = s.calls })

  unfoldable pub found_transfer :
      (auto_progress : Bool) → TransferMessage x → Option (Request x) → Handler TransferProcess
  unfolding after_recv
  found_transfer auto m none l = transfer_error 404 none l
  found_transfer auto m (some tr) l =
      after_recv auto (recv x v.env m (record { request = tr; calls = l.provider }))
        (locked tr ∷ l.calls)

  -- `processTransferMessage`; `WithRolePID` panics on an undefined role.
  unfoldable pub process_transfer_message :
      DataspaceRole → x.Uuid → (auto_progress : Bool) → TransferMessage x → Handler TransferProcess
  unfolding found_transfer
  process_transfer_message (undefined n) pid auto m l = (panicked, l)
  process_transfer_message role pid auto m l = found_transfer auto m (v.get_transfer l role pid) l

  -- `progressTransferState`, for a message that is decoded and valid: the PID is that of the path.
  unfoldable pub progress_transfer_state :
      DataspaceRole → String → (auto_progress : Bool) → TransferMessage x → Handler TransferProcess
  progress_transfer_state role raw_pid auto m = elim (x.parse_uuid raw_pid) [
    | none ↦ transfer_error 400 none
    | some pid ↦ process_transfer_message role pid auto m
  ]
