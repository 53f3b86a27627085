-- ===== src/StateMachine/ContractRecv.antt =====
-- dsp/statemachine/contract_transitions.go: `Recv` of each state of a contract negotiation.
use run_dsp.Prelude.{
  String, Bool, true, false, not, ◌||◌, Option, none, some, List, [], ◌∷◌, str_eq, if◌then◌else◌,
}
use run_dsp.Exec.{Exec, pure, raise, get, modify, ◌>>=◌, ◌>>◌}
use run_dsp.Extern.{Extern}
use run_dsp.Odrl.{Permission}
use run_dsp.Shared.Ids.{urn_to_raw_id}
use run_dsp.Shared.Messages.{
  ContractMessage, Multilanguage, ContractRequestMessage, ContractOfferMessage,
  ContractNegotiationTerminationMessage,
}
use run_dsp.Contract.State.{State, of_string, parse_state, eq_state}
use run_dsp.Contract.Negotiation.{
  Negotiation, set_provider_pid, set_consumer_pid, set_agreement, set_state, set_callback,
  set_initial,
}
use run_dsp.StateMachine.Env.{
  Env, Error, unsupported_message, dataset_not_found, could_not_marshal, invalid_status,
  provider_pid_mismatch, consumer_pid_mismatch, final_state, Apply, nothing, request_received,
  offer_received, accepted_received, agreement_received, verification_received,
  finalization_received, termination_received, lift_set, malformed_urn,
}

-- `len(permissions) == 0 || permissions[0].Action != "odrl:copy"`
abbrev pub needs_dataset : List Permission → Bool
needs_dataset [] = true
needs_dataset (p ∷ _) = not (str_eq p.action "odrl:copy")

abbrev first_reason : List Multilanguage → String
first_reason [] = ""
first_reason (r ∷ _) = r.value

module _ (x : Extern) (env : Env x) where
  abbrev pub Transition : Type 0 → Type 0
  Transition A = Exec Error (Negotiation x) A

  abbrev pub guard : Bool → Error → Transition Unit
  guard true e = pure tt
  guard false e = raise e

  -- `if b { m }`
  abbrev pub when : Bool → Transition Unit → Transition Unit
  when true m = m
  when false m = pure tt

  abbrev pub from_option : Error → Option String → Transition String
  from_option e none = raise e
  from_option e (some s) = pure s

  abbrev pub is_nil : x.Uuid → Bool
  is_nil u = x.eq_uuid u x.nil_uuid

  -- `af`, unless `cn.AutoAccept()`, or unless `cn.AutoAccept() || cn.c == nil`
  abbrev pub unless_auto : Apply x → Negotiation x → Apply x
  unless_auto af cn = if cn.auto_accept then nothing else af

  abbrev pub unless_auto_or_nil : Apply x → Negotiation x → Apply x
  unless_auto_or_nil af cn = if cn.auto_accept || not env.contract_service then nothing else af

  -- `verifyAndTransform`
  unfoldable pub verify_and_transform :
      (provider_pid consumer_pid callback_address : String) → State → Apply x → Transition (Apply x)
  verify_and_transform ppid cpid callback target af = do
    ours ← get (λ cn. cn)
    guard (str_eq (x.urn ours.provider_pid) (x.to_lower ppid)) provider_pid_mismatch
    guard (str_eq (x.urn ours.consumer_pid) (x.to_lower cpid)) consumer_pid_mismatch
    lift_set x (set_callback x callback)
    lift_set x (set_state x target)
    pure af

  -- `processTermination`
  unfoldable pub process_termination : ContractNegotiationTerminationMessage → Transition (Apply x)
  process_termination t = do
    cn ← get (λ cn. cn)
    verify_and_transform t.provider_pid t.consumer_pid (x.url_string cn.callback) State.terminated
        (unless_auto_or_nil (termination_received t.code (first_reason t.reason)) cn)

  -- `if p, err := uuid.Parse(s); err == nil && cn.GetProviderPID() == emptyUUID { … }`
  abbrev pub backfill_provider : String → Transition Unit
  backfill_provider s cn = elim (x.parse_uuid s) [
    | none ↦ pure tt cn
    | some u ↦ when (is_nil cn.provider_pid) (lift_set x (set_provider_pid x u)) cn
  ]

  abbrev pub backfill_consumer : String → Transition Unit
  backfill_consumer s cn = elim (x.parse_uuid s) [
    | none ↦ pure tt cn
    | some u ↦ when (is_nil cn.consumer_pid) (lift_set x (set_consumer_pid x u)) cn
  ]

  unfoldable pub process_contract_offer : ContractOfferMessage x → Transition (Apply x)
  process_contract_offer t = do
    lift_set x (set_state x State.offered)
    λ cn. when (is_nil cn.consumer_pid) (lift_set x (set_consumer_pid x env.new_uuid)) cn
    modify (set_initial x)
    offer ← λ cn. from_option could_not_marshal (env.marshal_offer cn.offer) cn
    get (unless_auto_or_nil (offer_received offer))

  unfoldable pub process_contract_request : ContractRequestMessage x → Transition (Apply x)
  process_contract_request t = do
    target ← λ cn. from_option malformed_urn (urn_to_raw_id x cn.offer.message_offer.target) cn
    λ cn.
        guard
          (not (needs_dataset cn.offer.message_offer.policy.permission) || env.get_dataset target)
          dataset_not_found cn
    lift_set x (set_state x State.requested)
    lift_set x (set_provider_pid x env.new_uuid)
    modify (set_initial x)
    offer ← λ cn. from_option could_not_marshal (env.marshal_offer cn.offer) cn
    get (unless_auto_or_nil (request_received offer))

  unfoldable pub recv_initial : ContractMessage x → Transition (Apply x)
  recv_initial (ContractMessage.request t) = process_contract_request t
  recv_initial (ContractMessage.offer t) = process_contract_offer t
  recv_initial _ = raise unsupported_message

  unfoldable pub recv_requested : ContractMessage x → Transition (Apply x)
  recv_requested (ContractMessage.offer t) = do
    backfill_provider t.provider_pid
    offer ← λ cn. from_option could_not_marshal (env.marshal_offer cn.offer) cn
    af ← get (unless_auto_or_nil (offer_received offer))
    verify_and_transform t.provider_pid t.consumer_pid t.callback_address State.offered af
  recv_requested (ContractMessage.agreement t) = do
    backfill_provider t.provider_pid
    lift_set x (set_agreement x t.agreement)
    af ← get (unless_auto_or_nil agreement_received)
    verify_and_transform t.provider_pid t.consumer_pid t.callback_address State.agreed af
  recv_requested (ContractMessage.termination t) = process_termination t
  recv_requested _ = raise unsupported_message

  unfoldable pub recv_offered : ContractMessage x → Transition (Apply x)
  recv_offered (ContractMessage.request t) = do
    backfill_consumer t.consumer_pid
    offer ← λ cn. from_option could_not_marshal (env.marshal_offer cn.offer) cn
    af ← get (unless_auto (request_received offer))
    verify_and_transform t.provider_pid t.consumer_pid t.callback_address State.requested af
  recv_offered (ContractMessage.event t) = do
    let received = parse_state (of_string t.event_type)
    callback ← get (λ cn. x.url_string cn.callback)
    guard (eq_state received State.accepted) (invalid_status received)
    af ← get (unless_auto accepted_received)
    verify_and_transform t.provider_pid t.consumer_pid callback received af
  recv_offered (ContractMessage.termination t) = process_termination t
  recv_offered _ = raise unsupported_message

  unfoldable pub recv_accepted : ContractMessage x → Transition (Apply x)
  recv_accepted (ContractMessage.agreement t) = do
    lift_set x (set_agreement x t.agreement)
    af ← get (unless_auto agreement_received)
    verify_and_transform t.provider_pid t.consumer_pid t.callback_address State.agreed af
  recv_accepted (ContractMessage.termination t) = process_termination t
  recv_accepted _ = raise unsupported_message

  unfoldable pub recv_agreed : ContractMessage x → Transition (Apply x)
  recv_agreed (ContractMessage.verification t) = do
    af ← get (unless_auto verification_received)
    callback ← get (λ cn. x.url_string cn.callback)
    verify_and_transform t.provider_pid t.consumer_pid callback State.verified af
  recv_agreed (ContractMessage.termination t) = process_termination t
  recv_agreed _ = raise unsupported_message

  unfoldable pub recv_verified : ContractMessage x → Transition (Apply x)
  recv_verified (ContractMessage.event t) = do
    let received = parse_state (of_string t.event_type)
    guard (eq_state received State.finalized) (invalid_status received)
    af ← get (unless_auto finalization_received)
    callback ← get (λ cn. x.url_string cn.callback)
    verify_and_transform t.provider_pid t.consumer_pid callback State.finalized af
  recv_verified (ContractMessage.termination t) = process_termination t
  recv_verified _ = raise unsupported_message

  -- `Recv` of the state that `GetContractNegotiation` selects.
  unfoldable pub recv_in : State → ContractMessage x → Transition (Apply x)
  unfolding recv_initial recv_requested recv_offered recv_accepted recv_agreed recv_verified
  recv_in State.initial m = recv_initial m
  recv_in State.requested m = recv_requested m
  recv_in State.offered m = recv_offered m
  recv_in State.agreed m = recv_agreed m
  recv_in State.accepted m = recv_accepted m
  recv_in State.verified m = recv_verified m
  recv_in State.finalized m = raise final_state
  recv_in State.terminated m = raise final_state

  unfoldable pub recv : ContractMessage x → Transition (Apply x)
  unfolding recv_in
  recv m cn = recv_in cn.state m cn
