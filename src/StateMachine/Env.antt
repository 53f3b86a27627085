-- ===== src/StateMachine/Env.antt =====
-- What the state machines of dsp/statemachine share: their dependencies, their errors, the entries
-- that they leave at the reconciler, and the functions that they return to be applied later.
use run_dsp.Prelude.{String, Bool, Option}
use run_dsp.Exec.{Outcome, ok, err, panicked, Exec}
use run_dsp.Extern.{Extern}
use run_dsp.Role.{DataspaceRole}
use run_dsp.Odrl.{Offer}
use run_dsp.Shared.Messages.{ContractMessage}
use run_dsp.Contract.State.{State}
use run_dsp.Contract.Negotiation.{Negotiation, SetError}

-- `stateMachineDeps`, and the answers of what a transition calls: `contract_service` says that
-- `cn.c` is not nil, `get_dataset` whether the provider knows the dataset, `new_uuid` and `now` are
-- the results of `uuid.New` and `time.Now`, `marshal_offer` is `json.Marshal`, and `marshal` is
-- `shared.ValidateAndMarshal`, `none` for an invalid message.
pub record Env (x : Extern) : Type 0 where
  pub contract_service : Bool
  pub get_dataset : String → Bool
  pub new_uuid : x.Uuid
  pub now : x.Time
  pub marshal_offer : Offer x → Option String
  pub marshal : ContractMessage x → Option String

pub data Error : Type 0 where
  unsupported_message : Error
  could_not_set : SetError → Error
  malformed_urn : Error
  dataset_not_found : Error
  could_not_marshal : Error
  invalid_status : State → Error
  provider_pid_mismatch : Error
  consumer_pid_mismatch : Error
  final_state : Error
  no_deduced_role : Error
  invalid_message : Error

-- `ReconciliationType`
pub data ReconciliationType : Type 0 where
  undefined contract transfer_request : ReconciliationType

-- `ReconciliationEntry`, without its context.
pub record ReconciliationEntry (x : Extern) : Type 0 where
  pub entity_id : x.Uuid
  pub type : ReconciliationType
  pub role : DataspaceRole
  pub target_state : String
  pub method : String
  pub url : x.Url
  pub body : String
  pub auth_header_value : String

-- An `applyFunc`, by what it does: nothing, a call of the contract service, or an entry for the
-- reconciler. The PIDs that a call sends are read when it runs, and are no part of it.
pub data Apply (x : Extern) : Type 0 where
  nothing : Apply x
  request_received : String → Apply x
  offer_received : String → Apply x
  accepted_received : Apply x
  agreement_received : Apply x
  verification_received : Apply x
  finalization_received : Apply x
  termination_received : (code reason : String) → Apply x
  add_entry : ReconciliationEntry x → Apply x

-- A method of the negotiation, within a transition.
abbrev pub set_outcome {ℓ} : {A : Type ℓ} → Outcome SetError A → Outcome Error A
set_outcome (ok a) = ok a
set_outcome (err e) = err (could_not_set e)
set_outcome panicked = panicked

abbrev pub lift_set :
    (x : Extern) {A : Type 0} → Exec SetError (Negotiation x) A → Exec Error (Negotiation x) A
lift_set x m cn = let (r, cn') = m cn in (set_outcome r, cn')
