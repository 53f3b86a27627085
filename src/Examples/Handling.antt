-- ===== src/Examples/Handling.antt =====
-- The handlers: the theorems at concrete inputs.
use run_dsp.Prelude.{◌≡◌, refl, true, false, none, some, []}
use run_dsp.Role.{provider}
use run_dsp.Contract.State.{State}
use run_dsp.Handlers.Contracts.{Service, process_message}
use run_dsp.Handlers.ContractLocks.{is_held, process_message-is_held}
use run_dsp.Handlers.Answers.{Answers, AnswersFor, process_message-Answers}
use run_dsp.Examples.World.{world}
use run_dsp.Shared.Messages.{ContractRequestMessage, ContractOfferMessage}
use run_dsp.Jsonld.{get_dsp_context}
use run_dsp.Handlers.FirstMessages.{
  Setup, provider_contract_request, consumer_contract_offer, first_message-is_held,
}
use run_dsp.Examples.Contracts.{env, negotiation, verification, some_offer}

-- A store with the provider's negotiation in AGREED, in which every call succeeds.
abbrev service : Service world
service = record {
  env = env;
  get_contract = λ l role pid. some (negotiation State.agreed);
  has_contract = λ l role pid. true;
  put_contract = λ l cn. true;
  release_contract = λ l cn. true;
  put_agreement = λ l a. true;
  apply = λ l af. true;
}

process_message-is_held_example :
    is_held (process_message world service provider 1 verification []).1 ≡ false
process_message-is_held_example =
    process_message-is_held world service (λ l cn. refl) provider 1 verification [] refl

process_message-Answers_example :
    Answers
      (AnswersFor world verification (negotiation State.agreed))
      (process_message world service provider 1 verification [])
process_message-Answers_example =
    process_message-Answers world service provider 1 verification [] {cn = negotiation State.agreed}
      tt refl tt refl (λ e. cc) refl refl

abbrev setup : Setup world
setup = record {
  new_pid = 5;
  self = "us";
  join_callback = λ u. u;
  trace = record { trace_id = ""; span_id = ""; trace_flags = 0 };
  requester = none;
}

abbrev request : ContractRequestMessage world
request = record {
  context = get_dsp_context;
  type = "dspace:ContractRequestMessage";
  provider_pid = "";
  consumer_pid = "xx";
  offer = some_offer.message_offer;
  callback_address = "/them";
}

abbrev offer : ContractOfferMessage world
offer = record {
  context = get_dsp_context;
  type = "dspace:ContractOfferMessage";
  provider_pid = "x";
  consumer_pid = "";
  offer = some_offer.message_offer;
  callback_address = "/them";
}

first_message-is_held_example :
    (is_held (provider_contract_request world service setup request []).1 ≡ false)
    × (is_held (consumer_contract_offer world service setup offer []).1 ≡ false)
first_message-is_held_example =
    first_message-is_held world service (λ l cn. refl) setup request offer [] refl
