-- ===== src/Handlers/Answers.antt =====
-- dsp/contract_handlers.go: what the response to a message says of the negotiation.
use native.Mathlib.Omega.{arith}
use mathlib.Core.Path.{subst}
use run_dsp.Prelude.{
  ℕ, ◌≡◌, ◌≢◌, ◌⊎◌, ◌∙◌, refl, sym, inl, inr, true, false, Option, none, some, ◌∷◌, Bool-cases,
}
use run_dsp.Exec.{Outcome, ok, err, panicked}
use run_dsp.Extern.{Extern}
use run_dsp.Role.{DataspaceRole, consumer, provider, undefined}
use run_dsp.Odrl.{Agreement}
use run_dsp.Shared.Messages.{ContractMessage, ContractNegotiation}
use run_dsp.Contract.State.{State}
use run_dsp.Contract.Negotiation.{Negotiation, local_pid, get_contract_negotiation}
use run_dsp.StateMachine.Env.{Error, Apply}
use run_dsp.StateMachine.ContractRecv.{recv}
use run_dsp.StateMachine.Triple.{Accepted, Tracks, Ends}
use run_dsp.StateMachine.RecvLaws.{recv_sound, message_provider, message_consumer, message_state}
use run_dsp.Handlers.Contracts.{
  locked, saved, agreement_saved, Log, Service, ContractError, contract_error, store_agreement,
  store_negotiation, release, apply_and_answer, after_store, after_send, after_recv, found_contract,
  process_message,
}

abbrev pub IsParty : DataspaceRole → Type 0
IsParty (undefined n) = ⊥
IsParty _ = Unit

-- The call does not panic; its result meets `Q`, and its error has status 400 or 500.
abbrev pub Answers :
    {x : Extern} {A : Type 0} → (A → Type 0) → Outcome (ContractError x) A × Log x → Type 0
Answers Q (ok a, l) = Q a
Answers Q (err e, l) = (e.status ≡ 400) ⊎ (e.status ≡ 500)
Answers Q (panicked, l) = ⊥

-- The response is made from a negotiation that has accepted the message.
pub record AnswersFor (x : Extern) (m : ContractMessage x) (cn : Negotiation x)
    (a : ContractNegotiation) : Type 0 where
  pub next : Negotiation x
  pub accepted :
      Accepted x (message_provider x m) (message_consumer x m) (message_state x m) cn next
  pub answer : a ≡ get_contract_negotiation x next

module _ (x : Extern) (v : Service x) where
  contract_error-Answers :
      (A : Type 0) (Q : A → Type 0) (status : ℕ) (cn : Negotiation x) (l : Log x)
      → IsParty cn.role
      → (status ≡ 400) ⊎ (status ≡ 500)
      → Answers Q (contract_error x v {A = A} status (some cn) l)
  unfolding contract_error local_pid
  contract_error-Answers A Q status cn l p s = ground arith

  store_agreement-Answers :
      (cn : Negotiation x) (a : Option (Agreement x)) (l : Log x)
      → IsParty cn.role
      → Answers (λ _. Unit) (store_agreement x v cn a l)
  unfolding store_agreement
  store_agreement-Answers cn none l p = tt
  store_agreement-Answers cn (some a) l p = ground (
    arith,
    contract_error-Answers (Unit {0}) (λ _. Unit) 500 cn (agreement_saved a false ∷ l) p (inr refl),
  )

  store_negotiation-Answers :
      (cn : Negotiation x) (l : Log x)
      → IsParty cn.role
      → Answers (λ _. Unit) (store_negotiation x v cn l)
  unfolding store_negotiation
  store_negotiation-Answers cn l p = ground (
    arith,
    store_agreement-Answers cn cn.agreement (saved cn true ∷ l) p,
    contract_error-Answers (Unit {0}) (λ _. Unit) 500 cn (saved cn false ∷ l) p (inr refl),
  )

  release-Answers :
      (Q : ContractNegotiation → Type 0) (cn : Negotiation x)
      (r : Outcome (ContractError x) ContractNegotiation × Log x)
      → Answers Q r
      → Answers Q (release x v cn r)
  unfolding release
  release-Answers Q cn (ok a, l) h = h
  release-Answers Q cn (err e, l) h = h
  release-Answers Q cn (panicked, l) h = h

  apply_and_answer-Answers :
      (Q : ContractNegotiation → Type 0) (af : Apply x) (cn : Negotiation x) (l : Log x)
      → IsParty cn.role
      → Q (get_contract_negotiation x cn)
      → Answers Q (apply_and_answer x v af cn l)
  unfolding apply_and_answer
  apply_and_answer-Answers Q af cn l p q = elim (Bool-cases (v.apply l af)) [
    | inl e ↦ rw e q
    | inr e ↦ rw e (contract_error-Answers ContractNegotiation Q 500 cn _ p (inr refl))
  ]

  after_store-Answers :
      (Q : ContractNegotiation → Type 0) (af : Apply x) (cn : Negotiation x)
      (r : Outcome (ContractError x) (Unit {0}) × Log x)
      → IsParty cn.role
      → Q (get_contract_negotiation x cn)
      → Answers (λ _. Unit) r
      → Answers Q (after_store x v af cn r)
  unfolding after_store
  after_store-Answers Q af cn (ok _, l) p q h = apply_and_answer-Answers Q af cn l p q
  after_store-Answers Q af cn (err e, l) p q h = release-Answers Q cn (err e, l) h
  after_store-Answers Q af cn (panicked, l) p q h = absurd h

  after_recv-Answers :
      (m : ContractMessage x) (cn : Negotiation x) (r : Outcome Error (Apply x) × Negotiation x)
      (l : Log x)
      → IsParty cn.role
      → cn.auto_accept ≡ false
      → v.env.contract_service ≡ true
      → Ends
          (λ _. Accepted x (message_provider x m) (message_consumer x m) (message_state x m) cn)
          (Tracks x cn)
          r
      → Answers (AnswersFor x m cn) (after_recv x v r l)
  unfolding after_recv after_send
  after_recv-Answers m cn (ok af, b) l p a s h =
      simp (h.keeps.auto_accept ∙ a, s)
        (after_store-Answers (AnswersFor x m cn) af b (store_negotiation x v b l)
          (subst IsParty (sym h.keeps.role) p) (record { next = b; accepted = h; answer = refl })
          (store_negotiation-Answers b l (subst IsParty (sym h.keeps.role) p)))
  after_recv-Answers m cn (err e, b) l p a s h =
      release-Answers (AnswersFor x m cn) b (contract_error x v 400 (some b) l) (
        contract_error-Answers ContractNegotiation (AnswersFor x m cn) 400 b l
          (subst IsParty (sym h.keeps.role) p) (inl refl))
  after_recv-Answers m cn (panicked, b) l p a s h = absurd h

  -- Where the store gives out a writable negotiation past INITIAL, of a consumer or a provider, that
  -- does not accept automatically, and there is a contract service, `processMessage` does not panic. Its
  -- errors have status 400 or 500. A response without an error is the state of a negotiation that has
  -- accepted the message: it is in the state that the message asks for, by an allowed change, with the
  -- PIDs of the message, and keeps what `Recv` keeps.
  pub process_message-Answers :
      (role : DataspaceRole) (pid : x.Uuid) (m : ContractMessage x) (l : Log x) {cn : Negotiation x}
      → IsParty role
      → v.get_contract l role pid ≡ some cn
      → IsParty cn.role
      → cn.ro ≡ false
      → cn.state ≢ State.initial
      → cn.auto_accept ≡ false
      → v.env.contract_service ≡ true
      → Answers (AnswersFor x m cn) (process_message x v role pid m l)
  unfolding process_message found_contract
  process_message-Answers consumer pid m l {cn = cn} d g p w n a s = rw g (
      after_recv-Answers m cn (recv x v.env m cn) (locked cn ∷ l) p a s
        (recv_sound x v.env m cn w n))
  process_message-Answers provider pid m l {cn = cn} d g p w n a s = rw g (
      after_recv-Answers m cn (recv x v.env m cn) (locked cn ∷ l) p a s
        (recv_sound x v.env m cn w n))
  process_message-Answers (undefined k) pid m l d g p w n a s = absurd d
