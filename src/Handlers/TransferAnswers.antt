-- ===== src/Handlers/TransferAnswers.antt =====
-- dsp/transfer_handlers.go: what a response to a transfer message says.
use run_dsp.Prelude.{ℕ, ◌≡◌, ◌≢◌, ◌⊎◌, inl, inr, refl, sym, some, true, false, Bool, List, arith}
use mathlib.Core.Path.{subst}
use run_dsp.Exec.{Outcome, ok, err, panicked}
use run_dsp.Extern.{Extern}
use run_dsp.Role.{DataspaceRole, consumer, provider, undefined}
use run_dsp.Shared.TransferMessages.{TransferMessage, TransferProcess}
use run_dsp.Transfer.State.{State}
use run_dsp.Transfer.Request.{Request, local_pid, get_transfer_process}
use run_dsp.StateMachine.TransferRecv.{Error, Session}
use run_dsp.StateMachine.TransferSend.{Apply, nothing, send, send_in}
use run_dsp.StateMachine.TransferTriple.{Accepted, Tracks, Ends}
use run_dsp.StateMachine.TransferLaws.{
  recv_transfer_sound, message_consumer, message_state, IsComplete,
}
use run_dsp.Handlers.Answers.{IsParty}
use run_dsp.Handlers.Transfers.{
  Call, saved, Log, Service, TransferError, note, transfer_error, store_request, answer, after_send,
  after_recv, found_transfer, process_transfer_message,
}

-- The call does not panic; its result meets `Q`, and its error has status 400 or 500.
abbrev pub Answers :
    {x : Extern} {A : Type 0} → (A → Type 0) → Outcome (TransferError x) A × Log x → Type 0
Answers Q (ok a, l) = Q a
Answers Q (err e, l) = (e.status ≡ 400) ⊎ (e.status ≡ 500)
Answers Q (panicked, l) = ⊥

-- The response is made from a request that has accepted the message.
pub record AnswersFor (x : Extern) (m : TransferMessage x) (tr : Request x) (a : TransferProcess)
    : Type 0 where
  pub next : Request x
  pub accepted : Accepted x (message_consumer x m) (message_state x m) tr next
  pub answer : a ≡ get_transfer_process x next

-- How the routes handle a message: the next message is made at once, but not after a start message.
abbrev pub Handles : {x : Extern} → TransferMessage x → Bool → Type 0
Handles (TransferMessage.start t) auto = auto ≡ false
Handles (TransferMessage.completion t) auto = auto ≡ true
Handles (TransferMessage.termination t) auto = auto ≡ true
Handles _ auto = ⊥

module _ (x : Extern) (v : Service x) where
  transfer_error-Answers :
      (A : Type 0) (Q : A → Type 0) (status : ℕ) (tr : Request x) (l : Log x)
      → IsParty tr.role
      → (status ≡ 400) ⊎ (status ≡ 500)
      → Answers Q (transfer_error x v {A = A} status (some tr) l)
  unfolding transfer_error local_pid
  transfer_error-Answers A Q status tr l p s = ground arith

  store_request-Answers :
      (tr : Request x) (l : Log x) → IsParty tr.role → Answers (λ _. Unit) (store_request x v tr l)
  unfolding store_request
  store_request-Answers tr l p = ground (
    arith,
    transfer_error-Answers (Unit {0}) (λ _. Unit) 500 tr (note x v (saved tr false) l) p (inr refl),
  )

  answer-Answers :
      (Q : TransferProcess → Type 0) (af : Apply x) (tr : Request x)
      (r : Outcome (TransferError x) (Unit {0}) × Log x)
      → Q (get_transfer_process x tr)
      → Answers (λ _. Unit) r
      → Answers Q (answer x v af tr r)
  unfolding answer
  answer-Answers Q af tr (ok _, l) q h = q
  answer-Answers Q af tr (err e, l) q h = h
  answer-Answers Q af tr (panicked, l) q h = absurd h

  -- Past a completion or a termination there is no next message.
  send_final :
      (s : Session x)
      → (s.request.state ≡ State.completed) ⊎ (s.request.state ≡ State.terminated)
      → send x v.env s ≡ (ok nothing, s)
  unfolding send send_in
  send_final s (inl e) = ground arith
  send_final s (inr e) = ground arith

  module _ (m : TransferMessage x) (tr : Request x) (party : IsParty tr.role) where
    abbrev Good : Outcome (TransferError x) TransferProcess × Log x → Type 0
    Good = Answers (AnswersFor x m tr)

    stored :
        (s : Session x) (c : List (Call x))
        → Accepted x (message_consumer x m) (message_state x m) tr s.request
        → Good (after_send x v (ok nothing, s) c)
    unfolding after_send
    stored s c h =
        answer-Answers (AnswersFor x m tr) nothing s.request _
          (record { next = s.request; accepted = h; answer = refl })
          (store_request-Answers s.request (record { calls = c; provider = s.calls })
            (subst IsParty (sym h.keeps.role) party))

    refused :
        (auto : Bool) (e : Error) (s : Session x) (c : List (Call x))
        → Tracks x tr s.request
        → Good (after_recv x v auto (err e, s) c)
    unfolding after_recv
    refused true e s c h =
        transfer_error-Answers TransferProcess (AnswersFor x m tr) 400 s.request _
          (subst IsParty (sym h.keeps.role) party) (inl refl)
    refused false e s c h =
        transfer_error-Answers TransferProcess (AnswersFor x m tr) 400 s.request _
          (subst IsParty (sym h.keeps.role) party) (inl refl)

    after_recv-Answers :
        (auto : Bool) (r : Outcome Error (Unit {0}) × Session x) (c : List (Call x))
        → (auto ≡ true
            → (message_state x m ≡ State.completed) ⊎ (message_state x m ≡ State.terminated))
        → Ends x (Accepted x (message_consumer x m) (message_state x m) tr) (Tracks x tr) r
        → Good (after_recv x v auto r c)
    unfolding after_recv
    after_recv-Answers true (ok _, s) c k h =
        rw (send_final s (ground (arith, k refl, h.state))) (stored s c h)
    after_recv-Answers false (ok _, s) c k h = stored s c h
    after_recv-Answers auto (err e, s) c k h = refused auto e s c h
    after_recv-Answers auto (panicked, s) c k h = absurd h

  final_of :
      (m : TransferMessage x) (auto : Bool)
      → Handles m auto
      → auto ≡ true
      → (message_state x m ≡ State.completed) ⊎ (message_state x m ≡ State.terminated)
  final_of (TransferMessage.start t) auto h e = cc
  final_of (TransferMessage.completion t) auto h e = inl refl
  final_of (TransferMessage.termination t) auto h e = inr refl
  final_of (TransferMessage.request t) auto h e = absurd h
  final_of (TransferMessage.suspension t) auto h e = absurd h
  final_of TransferMessage.other auto h e = absurd h

  -- Where the store gives out a writable request that is not SUSPENDED, of a consumer or a provider, a
  -- start, completion or termination message that the routes hand on does not make
  -- `processTransferMessage` panic, if a start message has a data address and a completed transfer a known
  -- direction. Its errors have status 400 or 500. A response without an error is the process of a request
  -- that has accepted the message: it is in the state that the message asks for, by an allowed change,
  -- with the consumer PID of the message.
  pub process_transfer_message-Answers :
      (role : DataspaceRole) (pid : x.Uuid) (auto : Bool) (m : TransferMessage x) (l : Log x)
      {tr : Request x}
      → IsParty role
      → Handles m auto
      → v.get_transfer l role pid ≡ some tr
      → IsParty tr.role
      → tr.ro ≡ false
      → tr.state ≢ State.suspended
      → IsComplete x m tr
      → Answers (AnswersFor x m tr) (process_transfer_message x v role pid auto m l)
  unfolding process_transfer_message found_transfer
  process_transfer_message-Answers consumer pid auto m l {tr = tr} d k g p w n c = rw g (
      after_recv-Answers m tr p auto _ _ (final_of m auto k)
        (recv_transfer_sound x v.env m (record { request = tr; calls = l.provider }) w n c))
  process_transfer_message-Answers provider pid auto m l {tr = tr} d k g p w n c = rw g (
      after_recv-Answers m tr p auto _ _ (final_of m auto k)
        (recv_transfer_sound x v.env m (record { request = tr; calls = l.provider }) w n c))
  process_transfer_message-Answers (undefined q) pid auto m l d k g p w n c = absurd d
