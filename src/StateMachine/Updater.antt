-- ===== src/StateMachine/Updater.antt =====
-- dsp/statemachine/reconciler.go: the store and the requester that the reconciler calls, and the
-- updaters of a negotiation's and of a transfer's state.
use run_dsp.Prelude.{
  ℕ, String, Bool, true, false, not, ◌&&◌, Option, none, some, List, ◌∷◌, str_eq, if◌then◌else◌,
}
use run_dsp.Exec.{Outcome, ok, err, panicked, Exec}
use run_dsp.Extern.{Extern}
use run_dsp.Role.{DataspaceRole, consumer, provider, role_string}
use run_dsp.Shared.Messages.{ContractNegotiation}
use run_dsp.Contract.State.{of_string, State as ContractState, parse_state as parse_contract_state}
use run_dsp.Contract.Negotiation.{
  Negotiation, SetError, set_provider_pid, set_consumer_pid, set_state as set_negotiation_state,
}
use run_dsp.Transfer.State.{State as TransferState, parse_state as parse_transfer_state}
use run_dsp.Transfer.Request.{Request, set_state as set_request_state}
use run_dsp.StateMachine.Env.{ReconciliationType, ReconciliationEntry}

-- What the reconciler locks: a negotiation or a transfer request.
pub data Record (x : Extern) : Type 0 where
  of_negotiation : Negotiation x → Record x
  of_request : Request x → Record x

-- The calls of the store and of the requester, with their answers: a record was read for writing, it
-- was saved or released and the store reported whether it succeeded, or a request was sent.
pub data Call (x : Extern) : Type 0 where
  locked : Record x → Call x
  refused : Call x
  saved : Record x → Bool → Call x
  released : Record x → Bool → Call x
  sent : ReconciliationEntry x → Call x

-- The calls so far, the latest first.
abbrev pub Log : Extern → Type 0
Log x = List (Call x)

-- The answer of `SendHTTPRequest`: an error, which may wrap `ErrFatal`, or a body.
pub data Reply : Type 0 where
  failed : (fatal : Bool) → Reply
  answered : (body : String) → Reply

-- What the reconciler calls. An answer may depend on all calls before it. `now` is in nanoseconds;
-- `draw` is the random interval of `calculateNextAttempt` for the given one.
pub record World (x : Extern) : Type 0 where
  pub get_contract : Log x → x.Uuid → DataspaceRole → Option (Negotiation x)
  pub get_transfer : Log x → x.Uuid → DataspaceRole → Option (Request x)
  pub put : Log x → Record x → Bool
  pub release : Log x → Record x → Bool
  pub send_http_request : Log x → ReconciliationEntry x → Reply
  pub unmarshal_ack : String → Option ContractNegotiation
  pub now : Log x → ℕ
  pub draw : Log x → ℕ → ℕ

pub data Error : Type 0 where
  cannot_find : Error
  cannot_change : Error
  cannot_save : Error
  undefined_type : Error
  request_failed : (fatal : Bool) → Error

abbrev pub role_of : {x : Extern} → Record x → DataspaceRole
role_of (of_negotiation cn) = cn.role
role_of (of_request tr) = tr.role

-- `WithRolePID` panics on an undefined role.
abbrev is_defined : DataspaceRole → Bool
is_defined consumer = true
is_defined provider = true
is_defined _ = false

module _ (x : Extern) (w : World x) where
  -- A call of the updaters: it appends to the log.
  abbrev pub Method : Type 0 → Type 0
  Method A = Exec Error (Log x) A

  -- `Rollback`; whether the lock was released is only logged.
  unfoldable pub rollback : Record x → Log x → Log x
  rollback r l = released r (w.release l r) ∷ l

  -- `Commit`: the counter's labels are made after the record is saved, and the role's name panics.
  unfoldable pub commit : Record x → Method Unit
  commit r l =
      if w.put l r
      then (elim (role_string (role_of r)) [
        | ok _ ↦ (ok tt, saved r true ∷ l)
        | err _ ↦ (ok tt, saved r true ∷ l)
        | panicked ↦ (panicked, saved r true ∷ l)
      ])
      else (err cannot_save, saved r false ∷ l)

  -- The end of `newNegotiationUpdater` and `newRequestUpdater`: the record is released if its state
  -- cannot be changed.
  unfoldable pub update_to :
      {E : Type 0} → Record x → Outcome E (Unit {0}) × Record x → Method (Record x)
  unfolding rollback
  update_to old (ok _, r) l = (ok r, locked old ∷ l)
  update_to old (err _, r) l = (err cannot_change, rollback r (locked old ∷ l))
  update_to old (panicked, r) l = (panicked, locked old ∷ l)

  -- From the store's answer on.
  unfoldable pub found_negotiation : ContractState → Option (Negotiation x) → Method (Record x)
  unfolding update_to
  found_negotiation t none l = (err cannot_find, refused ∷ l)
  found_negotiation t (some cn) l =
      let (o, cn') = set_negotiation_state x t cn in
      update_to (of_negotiation cn) (o, of_negotiation cn') l

  unfoldable pub found_request : TransferState → Option (Request x) → Method (Record x)
  unfolding update_to
  found_request t none l = (err cannot_find, refused ∷ l)
  found_request t (some tr) l =
      let (o, tr') = set_request_state x t tr in update_to (of_request tr) (o, of_request tr') l

  unfoldable pub new_negotiation_updater : ReconciliationEntry x → Method (Record x)
  unfolding found_negotiation
  new_negotiation_updater e l =
      if is_defined e.role
      then found_negotiation (parse_contract_state (of_string e.target_state))
          (w.get_contract l e.entity_id e.role) l
      else (panicked, l)

  unfoldable pub new_request_updater : ReconciliationEntry x → Method (Record x)
  unfolding found_request
  new_request_updater e l =
      if is_defined e.role
      then found_request (parse_transfer_state e.target_state) (w.get_transfer l e.entity_id e.role)
          l
      else (panicked, l)

  unfoldable pub get_state_updater : ReconciliationEntry x → Method (Record x)
  get_state_updater e = elim e.type [
    | ReconciliationType.contract ↦ new_negotiation_updater e
    | ReconciliationType.transfer_request ↦ new_request_updater e
    | ReconciliationType.undefined ↦ λ l. (err undefined_type, l)
  ]

  unfoldable pub pids_of : Option ContractNegotiation → Option (x.Uuid × x.Uuid)
  pids_of none = none
  pids_of (some ack) =
      if str_eq ack.type "dspace:ContractNegotiation"
      then (elim (x.parse_uuid ack.provider_pid) [
        | none ↦ none
        | some p ↦ elim (x.parse_uuid ack.consumer_pid) [ none ↦ none | some c ↦ some (p, c) ]
      ])
      else none

  unfoldable pub parse_negotiation_ack : String → Option (x.Uuid × x.Uuid)
  unfolding pids_of
  parse_negotiation_ack body = if str_eq body "" then none else pids_of (w.unmarshal_ack body)

  -- What `ApplyResponse` learns from the two PIDs of the answer.
  unfoldable pub learn : x.Uuid → x.Uuid → Exec SetError (Negotiation x) (Unit {0})
  learn ppid cpid cn =
      if x.eq_uuid cn.provider_pid x.nil_uuid
        && x.eq_uuid cpid cn.consumer_pid
        && not (x.eq_uuid ppid x.nil_uuid)
      then set_provider_pid x ppid cn
      else if x.eq_uuid cn.consumer_pid x.nil_uuid
          && x.eq_uuid ppid cn.provider_pid
          && not (x.eq_uuid cpid x.nil_uuid)
      then set_consumer_pid x cpid cn
      else (ok tt, cn)

  unfoldable pub learn_from : Option (x.Uuid × x.Uuid) → Exec SetError (Negotiation x) (Unit {0})
  learn_from none cn = (ok tt, cn)
  learn_from (some (ppid, cpid)) cn = learn ppid cpid cn

  -- `ApplyResponse`, which does nothing for a transfer.
  unfoldable pub apply_response : String → Exec SetError (Record x) (Unit {0})
  unfolding learn_from
  apply_response body (of_negotiation cn) =
      let (r, cn') = learn_from (parse_negotiation_ack body) cn in (r, of_negotiation cn')
  apply_response body (of_request tr) = (ok tt, of_request tr)
