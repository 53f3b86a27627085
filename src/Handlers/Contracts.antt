-- ===== src/Handlers/Contracts.antt =====
-- dsp/contract_handlers.go: a decoded message is given to the state machine, and the negotiation that
-- results is stored. The writing of the response is left out.
use run_dsp.Prelude.{
  ℕ, String, Bool, true, false, not, ◌||◌, Option, none, some, List, ◌∷◌, if◌then◌else◌,
}
use run_dsp.Exec.{Outcome, ok, err, panicked, Exec}
use run_dsp.Extern.{Extern}
use run_dsp.Role.{DataspaceRole, consumer, provider, undefined}
use run_dsp.Odrl.{Agreement}
use run_dsp.Shared.Messages.{ContractMessage, ContractNegotiation}
use run_dsp.Contract.Negotiation.{Negotiation, local_pid, get_contract_negotiation}
use run_dsp.StateMachine.Env.{Env, Error, Apply}
use run_dsp.StateMachine.ContractRecv.{recv}
use run_dsp.StateMachine.ContractSend.{send}

-- The calls of the store that change something, and of the functions that `Recv` and `Send` return,
-- with their success.
pub data Call (x : Extern) : Type 0 where
  locked : Negotiation x → Call x
  saved : Negotiation x → Bool → Call x
  released : Negotiation x → Bool → Call x
  agreement_saved : Agreement x → Bool → Call x
  applied : Apply x → Bool → Call x

-- The calls so far, the latest first.
abbrev pub Log : Extern → Type 0
Log x = List (Call x)

-- What a handler calls: `get_contract` reads for writing, and `has_contract` says whether a read-only
-- reading succeeds. An answer may depend on all calls before it.
pub record Service (x : Extern) : Type 0 where
  pub env : Env x
  pub get_contract : Log x → DataspaceRole → x.Uuid → Option (Negotiation x)
  pub has_contract : Log x → DataspaceRole → x.Uuid → Bool
  pub put_contract : Log x → Negotiation x → Bool
  pub release_contract : Log x → Negotiation x → Bool
  pub put_agreement : Log x → Agreement x → Bool
  pub apply : Log x → Apply x → Bool

-- `ContractError`: the HTTP status, and the negotiation if there is one. The texts of the error are left
-- out.
pub record ContractError (x : Extern) : Type 0 where
  pub status : ℕ
  pub contract : Option (Negotiation x)

module _ (x : Extern) (v : Service x) where
  abbrev pub Handler : Type 0 → Type 0
  Handler A = Exec (ContractError x) (Log x) A

  -- `contractError` logs the local PID of a negotiation, which panics on an undefined role.
  unfoldable pub contract_error : {A : Type 0} → ℕ → Option (Negotiation x) → Handler A
  contract_error status none l = (err (record { status = status; contract = none }), l)
  contract_error status (some cn) l = elim (local_pid x cn) [
    | none ↦ (panicked, l)
    | some _ ↦ (err (record { status = status; contract = some cn }), l)
  ]

  -- From the saved negotiation on: a new agreement is saved too.
  unfoldable pub store_agreement : Negotiation x → Option (Agreement x) → Handler Unit
  unfolding contract_error
  store_agreement cn none l = (ok tt, l)
  store_agreement cn (some a) l =
      if cn.new_agreement
      then (if v.put_agreement l a
          then (ok tt, agreement_saved a true ∷ l)
          else contract_error 500 (some cn) (agreement_saved a false ∷ l))
      else (ok tt, l)

  unfoldable pub store_negotiation : Negotiation x → Handler Unit
  unfolding store_agreement
  store_negotiation cn l =
      if v.put_contract l cn
      then store_agreement cn cn.agreement (saved cn true ∷ l)
      else contract_error 500 (some cn) (saved cn false ∷ l)

  -- The deferred release of a negotiation that was not stored.
  unfoldable pub release :
      {A : Type 0}
      → Negotiation x
      → Outcome (ContractError x) A × Log x
      → Outcome (ContractError x) A × Log x
  release cn (o, l) = (o, released cn (v.release_contract l cn) ∷ l)

  -- The end of `processMessage`, once the negotiation is stored.
  unfoldable pub apply_and_answer : Apply x → Negotiation x → Handler ContractNegotiation
  unfolding contract_error
  apply_and_answer af cn l =
      if v.apply l af
      then (ok (get_contract_negotiation x cn), applied af true ∷ l)
      else contract_error 500 (some cn) (applied af false ∷ l)

  unfoldable pub after_store :
      Apply x
      → Negotiation x
      → Outcome (ContractError x) (Unit {0}) × Log x
      → Outcome (ContractError x) ContractNegotiation × Log x
  unfolding release apply_and_answer
  after_store af cn (ok _, l) = apply_and_answer af cn l
  after_store af cn (err e, l) = release cn (err e, l)
  after_store af cn (panicked, l) = release cn (panicked, l)

  -- From what `Send` returns on.
  unfoldable pub after_send : Outcome Error (Apply x) × Negotiation x → Handler ContractNegotiation
  unfolding after_store
  after_send (ok af, cn) l = after_store af cn (store_negotiation cn l)
  after_send (err e, cn) l = release cn (contract_error 500 (some cn) l)
  after_send (panicked, cn) l = release cn (panicked, l)

  -- From what `Recv` returns on: without a contract service, or on `autoAccept`, the next message is
  -- made at once.
  unfoldable pub after_recv : Outcome Error (Apply x) × Negotiation x → Handler ContractNegotiation
  unfolding after_send
  after_recv (ok af, cn) l =
      if cn.auto_accept || not v.env.contract_service
      then after_send (send x v.env cn) l
      else after_send (ok af, cn) l
  after_recv (err e, cn) l = release cn (contract_error 400 (some cn) l)
  after_recv (panicked, cn) l = release cn (panicked, l)

  unfoldable pub found_contract :
      ContractMessage x → Option (Negotiation x) → Handler ContractNegotiation
  unfolding contract_error after_recv
  found_contract m none l = contract_error 404 none l
  found_contract m (some cn) l = after_recv (recv x v.env m cn) (locked cn ∷ l)

  -- `processMessage`; `WithRolePID` panics on an undefined role.
  unfoldable pub process_message :
      DataspaceRole → x.Uuid → ContractMessage x → Handler ContractNegotiation
  unfolding found_contract
  process_message (undefined n) pid m l = (panicked, l)
  process_message role pid m l = found_contract m (v.get_contract l role pid) l

  -- `progressContractState`, for a message that is decoded and valid: the PID is that of the path.
  unfoldable pub progress_contract_state :
      DataspaceRole → String → ContractMessage x → Handler ContractNegotiation
  progress_contract_state role raw_pid m = elim (x.parse_uuid raw_pid) [
    | none ↦ contract_error 400 none
    | some pid ↦ process_message role pid m
  ]

  -- `contractTerminationHandler`: the provider's negotiation is tried first.
  unfoldable pub contract_termination : String → ContractMessage x → Handler ContractNegotiation
  contract_termination raw_pid m l = elim (x.parse_uuid raw_pid) [
    | none ↦ contract_error 400 none l
    | some pid ↦
        if v.has_contract l provider pid
        then progress_contract_state provider raw_pid m l
        else progress_contract_state consumer raw_pid m l
  ]
