-- ===== src/StateMachine/ContractSend.antt =====
-- dsp/statemachine/contract_messages.go, and `Send` of each state in contract_transitions.go.
use run_dsp.Prelude.{String, not, ◌&&◌, ◌||◌, Option, none, some, List, [], ◌∷◌, if◌then◌else◌}
use run_dsp.Exec.{ok, err, pure, raise, get, ◌>>=◌, ◌>>◌}
use run_dsp.Extern.{Extern}
use run_dsp.Role.{is_consumer}
use run_dsp.Jsonld.{get_dsp_context}
use run_dsp.Odrl.{Agreement, no_policy}
use run_dsp.Shared.Ids.{urn_to_raw_id}
use run_dsp.Shared.Messages.{
  ContractMessage, ContractRequestMessage, ContractOfferMessage, ContractAgreementMessage,
  ContractAgreementVerificationMessage, ContractNegotiationEventMessage,
}
use run_dsp.Contract.State.{State, state_string}
use run_dsp.Contract.Negotiation.{Negotiation, set_agreement, unset_initial}
use run_dsp.StateMachine.Env.{
  Env, dataset_not_found, no_deduced_role, invalid_message, ReconciliationEntry, ReconciliationType,
  Apply, nothing, add_entry, lift_set, malformed_urn,
}
use run_dsp.StateMachine.ContractRecv.{Transition, from_option, needs_dataset}

module _ (x : Extern) where
  -- The text of a PID that is left out when it is empty.
  abbrev urn_if_set : x.Uuid → String
  urn_if_set u = if x.eq_uuid u x.nil_uuid then "" else x.urn u

  -- `GetRequesterInfo().GetExternalId()`, which the generated getter answers on nil too.
  abbrev pub auth_header : Option x.RequesterInfo → String
  auth_header none = ""
  auth_header (some i) = x.external_id i

  -- The messages, as `sendContractRequest` and the others build them.
  unfoldable pub request_message : Negotiation x → ContractRequestMessage x
  request_message cn = record {
    context = get_dsp_context;
    type = "dspace:ContractRequestMessage";
    provider_pid = urn_if_set cn.provider_pid;
    consumer_pid = x.urn cn.consumer_pid;
    offer = cn.offer.message_offer;
    callback_address = x.url_string cn.self;
  }

  unfoldable pub offer_message : Negotiation x → ContractOfferMessage x
  offer_message cn = record {
    context = get_dsp_context;
    type = "dspace:ContractOfferMessage";
    provider_pid = x.urn cn.provider_pid;
    consumer_pid = urn_if_set cn.consumer_pid;
    offer = cn.offer.message_offer;
    callback_address = x.url_string cn.self;
  }

  -- The agreement that `sendContractAgreement` makes.
  unfoldable pub new_agreement : x.Uuid → x.Time → Negotiation x → Agreement x
  new_agreement id now cn = record {
    policy = no_policy x;
    type = "odrl:Agreement";
    id = x.urn id;
    target = cn.offer.message_offer.target;
    timestamp = now;
  }

  unfoldable pub agreement_message : Agreement x → Negotiation x → ContractAgreementMessage x
  agreement_message a cn = record {
    context = get_dsp_context;
    type = "dspace:ContractAgreementMessage";
    provider_pid = x.urn cn.provider_pid;
    consumer_pid = x.urn cn.consumer_pid;
    agreement = a;
    callback_address = x.url_string cn.self;
  }

  unfoldable pub event_message : State → Negotiation x → ContractNegotiationEventMessage
  event_message state cn = record {
    context = get_dsp_context;
    type = "dspace:ContractNegotiationEventMessage";
    provider_pid = x.urn cn.provider_pid;
    consumer_pid = x.urn cn.consumer_pid;
    event_type = state_string state;
  }

  unfoldable pub verification_message : Negotiation x → ContractAgreementVerificationMessage
  verification_message cn = record {
    context = get_dsp_context;
    type = "dspace:ContractAgreementVerificationMessage";
    provider_pid = x.urn cn.provider_pid;
    consumer_pid = x.urn cn.consumer_pid;
  }

  -- `makeContractRequestFunction`, with the entry of `makeRequestFunction`. `cu` is the callback,
  -- whose clone is extended by the path.
  unfoldable pub make_entry :
      Negotiation x → (path : List String) → (body : String) → State → ReconciliationEntry x
  make_entry cn path body target = record {
    entity_id = if is_consumer cn.role then cn.consumer_pid else cn.provider_pid;
    type = ReconciliationType.contract;
    role = cn.role;
    target_state = state_string target;
    method = "POST";
    url = x.join_path cn.callback path;
    body = body;
    auth_header_value = auth_header cn.requester_info;
  }

module _ (x : Extern) (env : Env x) where
  -- What each `send…` function ends in: validate and marshal the message, and leave the entry.
  unfoldable pub send_message :
      ContractMessage x → (path : List String) → State → Transition x env (Apply x)
  unfolding make_entry
  send_message m path target cn = elim (env.marshal m) [
    | none ↦ (err invalid_message, cn)
    | some body ↦ (ok (add_entry (make_entry x cn path body target)), cn)
  ]

  unfoldable pub send_contract_request : Transition x env (Apply x)
  unfolding send_message
  send_contract_request cn =
      send_message (ContractMessage.request (request_message x cn))
        (if x.eq_uuid cn.provider_pid x.nil_uuid
          then "negotiations" ∷ "request" ∷ []
          else "negotiations" ∷ x.uuid_string cn.provider_pid ∷ "request" ∷ [])
        State.requested cn

  unfoldable pub send_contract_offer : Transition x env (Apply x)
  unfolding send_message
  send_contract_offer cn =
      send_message (ContractMessage.offer (offer_message x cn))
        (if x.eq_uuid cn.consumer_pid x.nil_uuid
          then "negotiations" ∷ "offers" ∷ []
          else "negotiations" ∷ x.uuid_string cn.consumer_pid ∷ "offers" ∷ [])
        State.offered cn

  unfoldable pub send_contract_agreement : Transition x env (Apply x)
  unfolding send_message
  send_contract_agreement = do
    a ← get (new_agreement x env.new_uuid env.now)
    lift_set x (set_agreement x a)
    λ cn.
        send_message (ContractMessage.agreement (agreement_message x a cn))
          ("negotiations" ∷ x.uuid_string cn.consumer_pid ∷ "agreement" ∷ []) State.agreed cn

  unfoldable pub send_contract_event : x.Uuid → State → Transition x env (Apply x)
  unfolding send_message
  send_contract_event pid state cn =
      send_message (ContractMessage.event (event_message x state cn))
        ("negotiations" ∷ x.uuid_string pid ∷ "events" ∷ []) state cn

  unfoldable pub send_contract_verification : Transition x env (Apply x)
  unfolding send_message
  send_contract_verification cn =
      send_message (ContractMessage.verification (verification_message x cn))
        ("negotiations" ∷ x.uuid_string cn.provider_pid ∷ "agreement" ∷ "verification" ∷ [])
        State.verified cn

  -- `Send` of the initial state, when only the provider PID is set.
  unfoldable pub send_initial_offer : Transition x env (Apply x)
  unfolding send_contract_offer
  send_initial_offer = do
    target ←
        λ cn. from_option x env malformed_urn (urn_to_raw_id x cn.offer.message_offer.target) cn
    λ cn.
        if needs_dataset cn.offer.message_offer.policy.permission && not (env.get_dataset target)
        then raise dataset_not_found cn
        else send_contract_offer cn

  unfoldable pub send_initial : Transition x env (Apply x)
  unfolding send_contract_request send_initial_offer
  send_initial cn =
      let no_consumer = x.eq_uuid cn.consumer_pid x.nil_uuid in
      let no_provider = x.eq_uuid cn.provider_pid x.nil_uuid in
      if (no_consumer && no_provider) || (not no_consumer && not no_provider)
      then (err no_deduced_role, cn)
      else if not no_consumer
      then send_contract_request cn
      else send_initial_offer cn

  unfoldable pub send_requested : Transition x env (Apply x)
  unfolding send_contract_offer send_contract_agreement
  send_requested cn =
      if cn.initial then send_contract_offer (unset_initial x cn) else send_contract_agreement cn

  unfoldable pub send_offered : Transition x env (Apply x)
  unfolding send_contract_request send_contract_event
  send_offered cn =
      if cn.initial
      then send_contract_request (unset_initial x cn)
      else send_contract_event cn.provider_pid State.accepted cn

  -- `Send` of the state that `GetContractNegotiation` selects.
  unfoldable pub send_in : State → Transition x env (Apply x)
  unfolding send_initial send_requested send_offered send_contract_agreement
      send_contract_verification send_contract_event
  send_in State.initial = send_initial
  send_in State.requested = send_requested
  send_in State.offered = send_offered
  send_in State.agreed = send_contract_verification
  send_in State.accepted = send_contract_agreement
  send_in State.verified = λ cn. send_contract_event cn.consumer_pid State.finalized cn
  send_in State.finalized = pure nothing
  send_in State.terminated = pure nothing

  unfoldable pub send : Transition x env (Apply x)
  unfolding send_in
  send cn = send_in cn.state cn
