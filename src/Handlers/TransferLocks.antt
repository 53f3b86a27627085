-- ===== src/Handlers/TransferLocks.antt =====
-- dsp/transfer_handlers.go: when the record of a transfer is left locked.
use run_dsp.Prelude.{
  ℕ, ◌≡◌, refl, Option, none, some, true, false, Bool, List, [], ◌∷◌, arith, if◌then◌else◌,
}
use run_dsp.Exec.{Outcome, ok, err, panicked}
use run_dsp.Extern.{Extern}
use run_dsp.Role.{DataspaceRole, consumer, provider, undefined}
use run_dsp.Shared.TransferMessages.{TransferMessage, TransferProcess}
use run_dsp.Transfer.Request.{Request}
use run_dsp.StateMachine.TransferRecv.{Error, Session}
use run_dsp.StateMachine.TransferSend.{Apply, nothing, send}
use run_dsp.Handlers.Transfers.{
  Call, locked, saved, released, applied, Log, Service, TransferError, note, transfer_error,
  store_request, answer, after_send, after_recv, found_transfer, process_transfer_message,
}

-- After these calls the request is locked: it was read for writing, and not saved with success since.
abbrev pub is_held : {x : Extern} → List (Call x) → Bool
is_held [] = false
is_held (locked tr ∷ l) = true
is_held (saved tr done ∷ l) = if done then false else is_held l
is_held (released tr done ∷ l) = if done then false else is_held l
is_held (applied af ∷ l) = is_held l

-- A response comes with a request that is not locked, and an error with one that is.
abbrev pub Locks : {x : Extern} {A : Type 0} → Outcome (TransferError x) A × Log x → Type 0
Locks (ok _, l) = is_held l.calls ≡ false
Locks (err _, l) = is_held l.calls ≡ true
Locks (panicked, l) = Unit

module _ (x : Extern) (v : Service x) where
  transfer_error-Locks :
      (A : Type 0) (status : ℕ) (o : Option (Request x)) (l : Log x)
      → is_held l.calls ≡ true
      → Locks (transfer_error x v {A = A} status o l)
  unfolding transfer_error
  transfer_error-Locks A status none l h = tt
  transfer_error-Locks A status (some tr) l h = ground arith

  store_request-Locks :
      (tr : Request x) (l : Log x) → is_held l.calls ≡ true → Locks (store_request x v tr l)
  unfolding store_request
  store_request-Locks tr l h =
      ground (arith, transfer_error-Locks (Unit {0}) 500 (some tr) (note x v (saved tr false) l) h)

  answer-Locks :
      (af : Apply x) (tr : Request x) (r : Outcome (TransferError x) (Unit {0}) × Log x)
      → Locks r
      → Locks (answer x v af tr r)
  unfolding answer
  answer-Locks af tr (ok _, l) h = h
  answer-Locks af tr (err e, l) h = h
  answer-Locks af tr (panicked, l) h = h

  after_send-Locks :
      (r : Outcome Error (Apply x) × Session x) (c : List (Call x))
      → is_held c ≡ true
      → Locks (after_send x v r c)
  unfolding after_send
  after_send-Locks (ok af, s) c h =
      answer-Locks af s.request _
        (store_request-Locks s.request (record { calls = c; provider = s.calls }) h)
  after_send-Locks (err e, s) c h =
      transfer_error-Locks TransferProcess 500 (some s.request)
        (record { calls = c; provider = s.calls }) h
  after_send-Locks (panicked, s) c h = tt

  after_recv-Locks :
      (auto : Bool) (r : Outcome Error (Unit {0}) × Session x) (c : List (Call x))
      → is_held c ≡ true
      → Locks (after_recv x v auto r c)
  unfolding after_recv
  after_recv-Locks true (ok _, s) c h = after_send-Locks (send x v.env s) c h
  after_recv-Locks false (ok _, s) c h = after_send-Locks (ok nothing, s) c h
  after_recv-Locks true (err e, s) c h =
      transfer_error-Locks TransferProcess 400 (some s.request)
        (record { calls = c; provider = s.calls }) h
  after_recv-Locks false (err e, s) c h =
      transfer_error-Locks TransferProcess 400 (some s.request)
        (record { calls = c; provider = s.calls }) h
  after_recv-Locks true (panicked, s) c h = tt
  after_recv-Locks false (panicked, s) c h = tt

  found_transfer-Locks :
      (auto : Bool) (m : TransferMessage x) (o : Option (Request x)) (l : Log x)
      → Locks (found_transfer x v auto m o l)
  unfolding found_transfer transfer_error
  found_transfer-Locks auto m none l = tt
  found_transfer-Locks auto m (some tr) l = after_recv-Locks auto _ (locked tr ∷ l.calls) refl

  -- `processTransferMessage` gives the lock back exactly when it responds: after a response the record
  -- is saved and not locked, and after every error that it returns the record is locked still, since
  -- nothing releases it. Of a panic nothing is said.
  pub process_transfer_message-Locks :
      (role : DataspaceRole) (pid : x.Uuid) (auto : Bool) (m : TransferMessage x) (l : Log x)
      → Locks (process_transfer_message x v role pid auto m l)
  unfolding process_transfer_message
  process_transfer_message-Locks consumer pid auto m l = found_transfer-Locks auto m _ l
  process_transfer_message-Locks provider pid auto m l = found_transfer-Locks auto m _ l
  process_transfer_message-Locks (undefined n) pid auto m l = tt
