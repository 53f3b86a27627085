-- ===== src/Examples/Contracts.antt =====
-- Contract negotiations: the theorems at concrete inputs, and runs of the state machine.
use native.Mathlib.Omega.{arith}
use run_dsp.Prelude.{
  ◌⊎◌, String, ◌≡◌, refl, true, false, Option, none, some, List, [], ◌∷◌, Bool, ◌&&◌, str_eq,
  eq_iff, if◌then◌else◌,
}
use run_dsp.Exec.{ok}
use run_dsp.Role.{consumer, provider}
use run_dsp.Jsonld.{ContextEntry, dsp_context, get_dsp_context}
use run_dsp.Odrl.{Offer, no_policy}
use run_dsp.Shared.Messages.{ContractMessage, ContractAgreementVerificationMessage}
use run_dsp.Contract.State.{
  State, state_string, parse_state, of_string, of_int, contract_state_round_trip,
}
use run_dsp.Contract.Negotiation.{Negotiation}
use run_dsp.StateMachine.Env.{Env, ReconciliationEntry, ReconciliationType, add_entry}
use run_dsp.StateMachine.ContractRecv.{recv}
use run_dsp.StateMachine.ContractSend.{send, verification_message}
use run_dsp.StateMachine.Triple.{Accepted, Tracks, Ends}
use run_dsp.StateMachine.RecvLaws.{recv_sound, recv-AnswersFirst, AnswersFirst}
use run_dsp.StateMachine.Peers.{Reaches}
use run_dsp.StateMachine.Exchange.{Decodes, recv-send}
use run_dsp.Examples.World.{world, world-IsLawful, unary}

contract_state_round_trip_example :
    (parse_state (of_string "dspace:AGREED") ≡ State.agreed)
    × (parse_state (of_int 3) ≡ State.agreed)
    × ((State.offered ≡ State.initial) ⊎ (state_string State.offered ≡ "dspace:OFFERED"))
unfolding state_string parse_state
contract_state_round_trip_example = contract_state_round_trip State.agreed "dspace:OFFERED"

abbrev pub some_offer : Offer world
some_offer = record {
  message_offer = record { policy = no_policy world; type = "odrl:Offer"; target = "urn:uuid:7" };
}

-- A provider's negotiation, with the PIDs 1 and 2.
abbrev pub negotiation : State → Negotiation world
negotiation s = record {
  provider_pid = 1;
  consumer_pid = 2;
  state = s;
  offer = some_offer;
  agreement = none;
  callback = "them";
  self = "us";
  role = provider;
  auto_accept = false;
  initial = false;
  ro = false;
  modified = false;
  new_agreement = false;
  trace_info = record { trace_id = ""; span_id = ""; trace_flags = 0 };
  requester_info = none;
  internal_id = 1;
  locked = true;
}

abbrev verification_type : String
verification_type = "dspace:ContractAgreementVerificationMessage"

abbrev agreement_verification : ContractAgreementVerificationMessage
agreement_verification = record {
  context = get_dsp_context;
  type = verification_type;
  provider_pid = "x";
  consumer_pid = "xx";
}

abbrev pub verification : ContractMessage world
verification = ContractMessage.verification agreement_verification

is_root : List ContextEntry → Bool
is_root (e ∷ []) = str_eq e.id dsp_context && str_eq e.type ""
is_root _ = false

is_root_iff : (l : List ContextEntry) → is_root l ≡ true → l ≡ get_dsp_context.root_contexts
unfolding is_root
is_root_iff [] h = cc
is_root_iff (e ∷ []) h = ground (arith, eq_iff e.id dsp_context, eq_iff e.type "")
is_root_iff (e ∷ f ∷ l) h = cc

is_empty : List (String × ContextEntry) → Bool
is_empty [] = true
is_empty (_ ∷ _) = false

-- The one message that this world can marshal.
is_agreement_verification : ContractAgreementVerificationMessage → Bool
is_agreement_verification t =
    is_root t.context.root_contexts
    && is_empty t.context.named_contexts
    && str_eq t.type verification_type
    && str_eq t.provider_pid "x"
    && str_eq t.consumer_pid "xx"

is_agreement_verification_iff :
    (t : ContractAgreementVerificationMessage)
    → is_agreement_verification t ≡ true
    → t ≡ agreement_verification
unfolding is_agreement_verification is_empty
is_agreement_verification_iff t h = ground (
  arith,
  is_root_iff t.context.root_contexts,
  eq_iff t.type verification_type,
  eq_iff t.provider_pid "x",
  eq_iff t.consumer_pid "xx",
)

pub marshal : ContractMessage world → Option String
unfolding is_agreement_verification is_root is_empty
marshal (ContractMessage.verification t) =
    if is_agreement_verification t then some "verification" else none
marshal _ = none

decode : String → Option (ContractMessage world)
decode _ = some verification

abbrev pub env : Env world
env = record {
  contract_service = true;
  get_dataset = λ _. true;
  new_uuid = 5;
  now = tt;
  marshal_offer = λ _. some "offer";
  marshal = marshal;
}

recv_sound_example :
    Ends
      (λ _. Accepted world "x" "xx" State.verified (negotiation State.agreed))
      (Tracks world (negotiation State.agreed))
      (recv world env verification (negotiation State.agreed))
recv_sound_example = recv_sound world env verification (negotiation State.agreed) refl (λ e. cc)

-- The consumer's side of the same negotiation sends the verification.
abbrev consumer_side : Negotiation world
consumer_side = record (negotiation State.agreed) {
  role = consumer;
  self = "them";
  callback = "us";
}

abbrev pub entry : ReconciliationEntry world
entry = record {
  entity_id = 2;
  type = ReconciliationType.contract;
  role = consumer;
  target_state = "dspace:VERIFIED";
  method = "POST";
  url = "us";
  body = "verification";
  auth_header_value = "";
}

-- A consumer's first request, at the provider.
abbrev first_request : ContractMessage world
first_request = ContractMessage.request (record {
  context = get_dsp_context;
  type = "dspace:ContractRequestMessage";
  provider_pid = "";
  consumer_pid = "xx";
  offer = some_offer.message_offer;
  callback_address = "/them";
})

recv-AnswersFirst_example :
    AnswersFirst world env first_request
      (negotiation State.initial)
      (recv world env first_request (negotiation State.initial))
recv-AnswersFirst_example =
    recv-AnswersFirst world env first_request (negotiation State.initial) refl refl

decodes : Decodes world env decode
unfolding marshal decode
decodes (ContractMessage.verification t) body h = ground (arith, is_agreement_verification_iff t)
decodes (ContractMessage.request t) body h = cc
decodes _ body h = cc

sends_verification : send world env consumer_side ≡ (ok (add_entry entry), consumer_side)
unfolding send verification_message state_string marshal unary
sends_verification = refl

recv-send_example :
    Reaches world
      (parse_state (of_string "dspace:VERIFIED"))
      (recv world env verification (negotiation State.agreed))
unfolding decode
recv-send_example =
    recv-send world world-IsLawful env env decode decodes consumer_side (negotiation State.agreed)
      entry verification refl (ground arith) consumer_side {o = "offer"} (λ e. cc) refl refl
      sends_verification
