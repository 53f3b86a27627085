-- ===== src/Handlers/ContractLocks.antt =====
-- dsp/contract_handlers.go: the lock of the negotiation that a message is about.
use native.Mathlib.Omega.{arith}
use run_dsp.Prelude.{ℕ, ◌≡◌, refl, Bool, true, false, Option, none, some, [], ◌∷◌, if◌then◌else◌}
use run_dsp.Exec.{Outcome, ok, err, panicked}
use run_dsp.Extern.{Extern}
use run_dsp.Role.{DataspaceRole, consumer, provider, undefined}
use run_dsp.Odrl.{Agreement}
use run_dsp.Shared.Messages.{ContractMessage, ContractNegotiation}
use run_dsp.Contract.Negotiation.{Negotiation}
use run_dsp.StateMachine.Env.{Error, Apply}
use run_dsp.StateMachine.ContractRecv.{recv}
use run_dsp.StateMachine.ContractSend.{send}
use run_dsp.Handlers.Contracts.{
  locked, saved, released, agreement_saved, applied, Log, Service, ContractError, contract_error,
  store_agreement, store_negotiation, release, apply_and_answer, after_store, after_send,
  after_recv, found_contract, process_message,
}

-- After these calls the negotiation is locked: it was read for writing, and neither saved nor released
-- with success since.
abbrev pub is_held : {x : Extern} → Log x → Bool
is_held [] = false
is_held (locked cn ∷ l) = true
is_held (saved cn done ∷ l) = if done then false else is_held l
is_held (released cn done ∷ l) = if done then false else is_held l
is_held (agreement_saved a done ∷ l) = is_held l
is_held (applied af done ∷ l) = is_held l

-- Every release succeeds.
abbrev pub Releases : (x : Extern) → Service x → Type 0
Releases x v = (l : Log x) (cn : Negotiation x) → v.release_contract l cn ≡ true

abbrev IsFree : {x : Extern} {A : Type 0} → Outcome (ContractError x) A × Log x → Type 0
IsFree r = is_held r.1 ≡ false

-- A result comes with a negotiation that is not locked.
abbrev IsStored : {x : Extern} {A : Type 0} → Outcome (ContractError x) A × Log x → Type 0
IsStored (ok _, l) = is_held l ≡ false
IsStored (err _, l) = Unit
IsStored (panicked, l) = Unit

module _ (x : Extern) (v : Service x) (releases : Releases x v) where
  release-IsFree :
      (cn : Negotiation x) (r : Outcome (ContractError x) ContractNegotiation × Log x)
      → IsFree (release x v cn r)
  unfolding release
  release-IsFree cn (o, l) = rw (releases l cn) refl

  pub contract_error-log :
      (A : Type 0) (status : ℕ) (o : Option (Negotiation x)) (l : Log x)
      → (contract_error x v {A = A} status o l).1 ≡ l
  unfolding contract_error
  contract_error-log A status none l = refl
  contract_error-log A status (some cn) l = ground arith

  contract_error-IsStored :
      (A : Type 0) (status : ℕ) (o : Option (Negotiation x)) (l : Log x)
      → IsStored (contract_error x v {A = A} status o l)
  unfolding contract_error
  contract_error-IsStored A status none l = tt
  contract_error-IsStored A status (some cn) l = ground arith

  store_agreement-IsStored :
      (cn : Negotiation x) (a : Option (Agreement x)) (l : Log x)
      → is_held l ≡ false
      → IsStored (store_agreement x v cn a l)
  unfolding store_agreement
  store_agreement-IsStored cn none l h = h
  store_agreement-IsStored cn (some a) l h =
      ground (arith, contract_error-IsStored (Unit {0}) 500 (some cn) (agreement_saved a false ∷ l))

  store_negotiation-IsStored :
      (cn : Negotiation x) (l : Log x) → IsStored (store_negotiation x v cn l)
  unfolding store_negotiation
  store_negotiation-IsStored cn l = ground (
    arith,
    store_agreement-IsStored cn cn.agreement (saved cn true ∷ l) refl,
    contract_error-IsStored (Unit {0}) 500 (some cn) (saved cn false ∷ l),
  )

  apply_and_answer-IsFree :
      (af : Apply x) (cn : Negotiation x) (l : Log x)
      → is_held l ≡ false
      → IsFree (apply_and_answer x v af cn l)
  unfolding apply_and_answer
  apply_and_answer-IsFree af cn l h =
      ground (arith, contract_error-log ContractNegotiation 500 (some cn) (applied af false ∷ l))

  after_store-IsFree :
      (af : Apply x) (cn : Negotiation x) (r : Outcome (ContractError x) (Unit {0}) × Log x)
      → IsStored r
      → IsFree (after_store x v af cn r)
  unfolding after_store
  after_store-IsFree af cn (ok _, l) h = apply_and_answer-IsFree af cn l h
  after_store-IsFree af cn (err e, l) h = release-IsFree cn (err e, l)
  after_store-IsFree af cn (panicked, l) h = release-IsFree cn (panicked, l)

  after_send-IsFree :
      (r : Outcome Error (Apply x) × Negotiation x) (l : Log x) → IsFree (after_send x v r l)
  unfolding after_send
  after_send-IsFree (ok af, cn) l =
      after_store-IsFree af cn (store_negotiation x v cn l) (store_negotiation-IsStored cn l)
  after_send-IsFree (err e, cn) l = release-IsFree cn (contract_error x v 500 (some cn) l)
  after_send-IsFree (panicked, cn) l = release-IsFree cn (panicked, l)

  after_recv-IsFree :
      (r : Outcome Error (Apply x) × Negotiation x) (l : Log x) → IsFree (after_recv x v r l)
  unfolding after_recv
  after_recv-IsFree (ok af, cn) l =
      ground (arith, after_send-IsFree (send x v.env cn) l, after_send-IsFree (ok af, cn) l)
  after_recv-IsFree (err e, cn) l = release-IsFree cn (contract_error x v 400 (some cn) l)
  after_recv-IsFree (panicked, cn) l = release-IsFree cn (panicked, l)

  found_contract-IsFree :
      (m : ContractMessage x) (o : Option (Negotiation x)) (l : Log x)
      → is_held l ≡ false
      → IsFree (found_contract x v m o l)
  unfolding found_contract
  found_contract-IsFree m none l h = rw (contract_error-log ContractNegotiation 404 none l) h
  found_contract-IsFree m (some cn) l h = after_recv-IsFree (recv x v.env m cn) (locked cn ∷ l)

  -- However `processMessage` ends, with a response, an error or a panic, the negotiation is not locked
  -- afterwards, if it was not locked before and every release succeeds.
  pub process_message-is_held :
      (role : DataspaceRole) (pid : x.Uuid) (m : ContractMessage x) (l : Log x)
      → is_held l ≡ false
      → is_held (process_message x v role pid m l).1 ≡ false
  unfolding process_message
  process_message-is_held consumer pid m l h =
      found_contract-IsFree m (v.get_contract l consumer pid) l h
  process_message-is_held provider pid m l h =
      found_contract-IsFree m (v.get_contract l provider pid) l h
  process_message-is_held (undefined n) pid m l h = h
