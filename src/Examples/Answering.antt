-- ===== src/Examples/Answering.antt =====
-- The transfer handlers: the theorems at concrete inputs.
use run_dsp.Prelude.{◌≡◌, refl, true, none, some, []}
use run_dsp.Exec.{panicked}
use run_dsp.Role.{provider}
use run_dsp.Jsonld.{get_dsp_context}
use run_dsp.Shared.TransferMessages.{TransferRequestMessage}
use run_dsp.Handlers.Transfers.{Log, Service, process_transfer_message}
use run_dsp.Handlers.NewTransfer.{
  Setup, IsRefused, provider_transfer_request, provider_transfer_request-IsRefused,
}
use run_dsp.Handlers.TransferLocks.{Locks, process_transfer_message-Locks}
use run_dsp.Handlers.TransferAnswers.{Answers, AnswersFor}
use run_dsp.Handlers.RouteAnswers.{Arrival, handle, handle-Answers}
use run_dsp.Examples.World.{world, read_unary}
use run_dsp.Examples.Transfers.{env, request, completion, completion_message}

-- A store with the provider's transfer in STARTED, and without agreements.
abbrev service : Service world
service = record {
  env = env;
  get_transfer = λ l role pid. some request;
  put_transfer = λ l tr. true;
  get_agreement = λ l id. none;
}

abbrev nothing_yet : Log world
nothing_yet = record { calls = []; provider = [] }

process_transfer_message-Locks_example :
    Locks (process_transfer_message world service provider 1 true completion nothing_yet)
process_transfer_message-Locks_example =
    process_transfer_message-Locks world service provider 1 true completion nothing_yet

abbrev setup : Setup world
setup = record {
  new_pid = 5;
  self = "us";
  trace = record { trace_id = ""; span_id = ""; trace_flags = 0 };
  requester = none;
}

-- A request for an agreement that is not known.
abbrev unknown_agreement : TransferRequestMessage
unknown_agreement = record {
  context = get_dsp_context;
  type = "dspace:TransferRequestMessage";
  agreement_id = "xxx";
  format = "HTTP_PULL";
  data_address = none;
  callback_address = "/them";
  consumer_pid = "xx";
}

provider_transfer_request-IsRefused_example :
    provider_transfer_request world service setup unknown_agreement nothing_yet
    ≡ (panicked, nothing_yet)
unfolding read_unary
provider_transfer_request-IsRefused_example =
    provider_transfer_request-IsRefused world service setup unknown_agreement nothing_yet
      (IsRefused.no_agreement {a = 3} refl refl)

abbrev arrival : Arrival world
arrival = Arrival.provider_completion completion_message

handle-Answers_example :
    Answers (AnswersFor world completion request) (handle world service arrival "x" nothing_yet)
unfolding read_unary
handle-Answers_example =
    handle-Answers world service arrival "x" nothing_yet {pid = 1} {tr = request} refl refl tt refl
      (λ e. cc) tt
