-- ===== src/Control/Contracts.antt =====
-- dsp/control/contracts.go: the calls by which a participant takes a negotiation one step on.
use run_dsp.Prelude.{
  String, Bool, true, false, not, ◌&&◌, ◌||◌, Option, none, some, List, [], ◌∷◌, map, str_eq,
  if◌then◌else◌,
}
use run_dsp.Exec.{Outcome, ok, err, panicked, Exec}
use run_dsp.Extern.{Extern}
use run_dsp.Auth.{check_requester_info}
use run_dsp.Role.{DataspaceRole, consumer, provider, is_provider}
use run_dsp.Jsonld.{get_dsp_context}
use run_dsp.Odrl.{Offer, Agreement}
use run_dsp.Shared.Messages.{
  TraceInfo, ContractMessage, Multilanguage, ContractNegotiationTerminationMessage,
}
use run_dsp.Contract.State.{State, contains, state_string}
use run_dsp.Contract.Negotiation.{
  Negotiation, new, set_initial, set_auto_accept, local_pid, remote_pid,
}
use run_dsp.StateMachine.Env.{Error, Apply, add_entry, ReconciliationEntry, ReconciliationType}
use run_dsp.StateMachine.ContractSend.{send}
use run_dsp.Handlers.Contracts.{Log, locked, saved, released, agreement_saved, applied, Service}
use run_dsp.Control.Code.{Code, invalid_argument, unauthenticated, internal}
use run_dsp.Control.Provider.{Requester, get_provider_url}

-- What a call takes from its set-up: `uuid.New`, `s.selfURL`, the trace, the requester for
-- `getProviderURL`, and `json.Unmarshal` of an offer.
pub record Setup (x : Extern) : Type 0 where
  pub new_pid : x.Uuid
  pub self : x.Url
  pub trace : TraceInfo
  pub requester : Requester x
  pub unmarshal_offer : String → Option (Offer x)

-- `localRequesterInfo`
abbrev pub local_requester : (x : Extern) → x.RequesterInfo
local_requester x = x.local_origin ""

module _ (x : Extern) (v : Service x) where
  abbrev pub Rpc : Type 0 → Type 0
  Rpc A = Exec Code (Log x) A

  abbrev fail : {A : Type 0} → Code → Rpc A
  fail c l = (err c, l)

  -- The function that `Send` returned is called, and its error dropped.
  unfoldable pub apply_it : Apply x → Rpc Unit
  apply_it af l = (ok tt, applied af (v.apply l af) ∷ l)

  -- Once the negotiation is stored: a new agreement is stored too.
  unfoldable pub store_agreement : Apply x → Negotiation x → Option (Agreement x) → Rpc Unit
  unfolding apply_it
  store_agreement af cn none l = apply_it af l
  store_agreement af cn (some a) l =
      if cn.new_agreement
      then (if v.put_agreement l a
          then apply_it af (agreement_saved a true ∷ l)
          else fail internal (agreement_saved a false ∷ l))
      else apply_it af l

  -- From what `Send` returns on.
  unfoldable pub store_sent : Outcome Error (Apply x) × Negotiation x → Rpc Unit
  unfolding store_agreement
  store_sent (ok af, cn) l =
      if v.put_contract l cn
      then store_agreement af cn cn.agreement (saved cn true ∷ l)
      else fail internal (saved cn false ∷ l)
  store_sent (err e, cn) l = fail internal l
  store_sent (panicked, cn) l = (panicked, l)

  -- Once the requester is checked.
  unfoldable pub send_from : (valid_from : List State) → Negotiation x → Rpc Unit
  unfolding store_sent
  send_from valid_from cn l =
      if contains cn.state valid_from
      then store_sent (send x v.env cn) l
      else fail invalid_argument l

  abbrev pub marked : (initial auto_accept : Bool) → Negotiation x → Negotiation x
  marked initial auto cn =
      let first = if initial then set_initial x cn else cn in
      if auto then set_auto_accept x first else first

  -- The requester of a control request is our own.
  unfoldable pub send_checked :
      (valid_from : List State)
      → (initial auto_accept : Bool) → Negotiation x
      → Outcome (Unit {0}) (Unit {0})
      → Rpc Unit
  unfolding send_from
  send_checked valid_from initial auto cn (ok _) l = send_from valid_from (marked initial auto cn) l
  send_checked valid_from initial auto cn (err _) l =
      fail unauthenticated (released cn (v.release_contract l cn) ∷ l)
  send_checked valid_from initial auto cn panicked l = (panicked, l)

  unfoldable pub send_found :
      (valid_from : List State) → (initial auto_accept : Bool) → Option (Negotiation x) → Rpc Unit
  unfolding send_checked check_requester_info
  send_found valid_from initial auto none l = fail invalid_argument l
  send_found valid_from initial auto (some cn) l =
      send_checked valid_from initial auto cn
        (check_requester_info x (some (local_requester x)) cn.requester_info) (locked cn ∷ l)

  -- `sendContractMessage`; the roles that it is called with are defined.
  unfoldable pub send_contract_message :
      (valid_from : List State)
      → (raw_pid : String) → DataspaceRole
      → (initial auto_accept : Bool) → Rpc Unit
  unfolding send_found
  send_contract_message valid_from raw_pid role initial auto l = elim (x.parse_uuid raw_pid) [
    | none ↦ fail invalid_argument l
    | some pid ↦ send_found valid_from initial auto (v.get_contract l role pid) l
  ]

  unfoldable pub contract_accept : (pid : String) → (auto_accept : Bool) → Rpc Unit
  contract_accept pid auto = send_contract_message (State.offered ∷ []) pid consumer false auto

  unfoldable pub contract_agree : (pid : String) → (auto_accept : Bool) → Rpc Unit
  contract_agree pid auto =
      send_contract_message (State.requested ∷ State.accepted ∷ []) pid provider false auto

  unfoldable pub contract_verify : (pid : String) → (auto_accept : Bool) → Rpc Unit
  contract_verify pid auto = send_contract_message (State.agreed ∷ []) pid consumer false auto

  unfoldable pub contract_finalize : (pid : String) → (auto_accept : Bool) → Rpc Unit
  contract_finalize pid auto = send_contract_message (State.verified ∷ []) pid provider false auto

module _ (x : Extern) (v : Service x) (s : Setup x) where
  -- A new negotiation of ours with the party at a URL; `s.contractService == nil` accepts by itself.
  unfoldable pub new_negotiation :
      DataspaceRole → Offer x → (callback : x.Url) → (auto_accept : Bool) → Negotiation x
  unfolding new
  new_negotiation role offer callback auto =
      new x s.trace (if is_provider role then s.new_pid else x.nil_uuid)
        (if is_provider role then x.nil_uuid else s.new_pid) State.initial offer callback s.self
        role (auto || not v.env.contract_service) (some (local_requester x))

  -- The start of a negotiation with the participant at an address, and then its first message.
  unfoldable pub start_negotiation :
      DataspaceRole
      → (valid_from : List State) → Option (Offer x)
      → Outcome Code x.Url
      → (auto_accept : Bool) → Rpc x v Unit
  unfolding new_negotiation send_contract_message
  start_negotiation role valid_from none address auto l = (err invalid_argument, l)
  start_negotiation role valid_from (some offer) (err _) auto l = (err invalid_argument, l)
  start_negotiation role valid_from (some offer) panicked auto l = (panicked, l)
  start_negotiation role valid_from (some offer) (ok url) auto l =
      let cn = new_negotiation role offer url auto in
      if v.put_contract l cn
      then send_contract_message x v valid_from (x.uuid_string s.new_pid) role true auto
          (saved cn true ∷ l)
      else (err internal, saved cn false ∷ l)

  -- The common body of `ContractRequest` and `ContractOffer`: without a PID a negotiation is started.
  unfoldable pub request_or_offer :
      DataspaceRole
      → (valid_from : List State) → (pid address raw_offer : String) → (auto_accept : Bool)
      → Rpc x v Unit
  unfolding start_negotiation get_provider_url
  request_or_offer role valid_from pid address raw_offer auto l =
      if str_eq pid "" && str_eq address ""
      then (err invalid_argument, l)
      else if str_eq pid ""
      then start_negotiation role valid_from (s.unmarshal_offer raw_offer)
          (get_provider_url x s.requester address) auto l
      else send_contract_message x v valid_from pid role true auto l

  unfoldable pub contract_request :
      (pid address raw_offer : String) → (auto_accept : Bool) → Rpc x v Unit
  contract_request = request_or_offer consumer (State.initial ∷ State.offered ∷ [])

  unfoldable pub contract_offer :
      (pid address raw_offer : String) → (auto_accept : Bool) → Rpc x v Unit
  contract_offer = request_or_offer provider (State.initial ∷ State.requested ∷ [])

module _ (x : Extern) (v : Service x) where
  reason_of : String → Multilanguage
  reason_of s = record { value = s; language = "en" }

  unfoldable pub termination_message :
      (code : String)
      → (reasons : List String) → Negotiation x
      → ContractNegotiationTerminationMessage
  unfolding reason_of
  termination_message code reasons cn = record {
    context = get_dsp_context;
    type = "dspace:ContractNegotiationTerminationMessage";
    provider_pid = x.urn cn.provider_pid;
    consumer_pid = x.urn cn.consumer_pid;
    code = code;
    reason = map reason_of reasons;
  }

  -- The entry of a termination; `GetLocalPID` and `GetRemotePID` panic on an undefined role, and a nil
  -- requester is dereferenced.
  unfoldable pub termination_entry :
      Negotiation x → (body : String) → Outcome Code (ReconciliationEntry x)
  termination_entry cn body = elim (remote_pid x cn) [
    | none ↦ panicked
    | some remote ↦ elim (local_pid x cn) [
      | none ↦ panicked
      | some id ↦ elim cn.requester_info [
        | none ↦ panicked
        | some requester ↦ ok (record {
          entity_id = id;
          type = ReconciliationType.contract;
          role = cn.role;
          target_state = state_string State.terminated;
          method = "POST";
          url =
              x.join_path cn.callback ("negotiations" ∷ x.uuid_string remote ∷ "termination" ∷ []);
          body = body;
          auth_header_value = x.external_id requester;
        })
      ]
    ]
  ]

  unfoldable pub add_termination : Outcome Code (ReconciliationEntry x) → Rpc x v Unit
  unfolding apply_it
  add_termination (ok e) l = apply_it x v (add_entry e) l
  add_termination (err c) l = (err c, l)
  add_termination panicked l = (panicked, l)

  terminate_marshalled : Negotiation x → Option String → Rpc x v Unit
  unfolding termination_entry add_termination
  terminate_marshalled cn none l = (err internal, l)
  terminate_marshalled cn (some body) l = add_termination (termination_entry cn body) l

  -- Once the negotiation is found, read-only; its local PID is logged.
  unfoldable pub terminate_found :
      (code : String) → (reasons : List String) → Option (Negotiation x) → Rpc x v Unit
  unfolding termination_message terminate_marshalled
  terminate_found code reasons none l = (err invalid_argument, l)
  terminate_found code reasons (some cn) l = elim (local_pid x cn) [
    | none ↦ (panicked, l)
    | some _ ↦
        terminate_marshalled cn
          (v.env.marshal (ContractMessage.termination (termination_message code reasons cn))) l
  ]

  -- The first role of ours that a PID belongs to, the consumer's before the provider's.
  abbrev pub find_contract :
      (DataspaceRole → x.Uuid → Option (Negotiation x)) → x.Uuid → Option (Negotiation x)
  find_contract get pid = elim (get consumer pid) [ some cn ↦ some cn | none ↦ get provider pid ]

  -- `ContractTerminate`, where `get` reads a contract without locking it.
  unfoldable pub contract_terminate :
      (get : DataspaceRole → x.Uuid → Option (Negotiation x))
      → (pid code : String) → (reasons : List String) → Rpc x v Unit
  unfolding terminate_found
  contract_terminate get pid code reasons l = elim (x.parse_uuid pid) [
    | none ↦ (err invalid_argument, l)
    | some id ↦ terminate_found code reasons (find_contract get id) l
  ]
