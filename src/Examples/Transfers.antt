-- ===== src/Examples/Transfers.antt =====
-- Transfers: the theorems at concrete inputs.
use run_dsp.Prelude.{◌≡◌, refl, true, false, none, some, [], ◌∷◌}
use run_dsp.Exec.{ok}
use run_dsp.Role.{provider}
use run_dsp.Jsonld.{get_dsp_context}
use run_dsp.Shared.TransferMessages.{TransferMessage, TransferCompletionMessage, DataAddress}
use run_dsp.Transfer.State.{State, Direction}
use run_dsp.Transfer.Request.{Request, PublishInfo, bearer}
use run_dsp.StateMachine.PublishInfo.{
  data_address_to_publish_info, publish_info_to_data_address, publish_info_round_trip,
}
use run_dsp.StateMachine.TransferRecv.{Env, Session, recv}
use run_dsp.StateMachine.TransferLaws.{recv_transfer_sound}
use run_dsp.StateMachine.TransferTriple.{Ends, Accepted, Tracks}
use run_dsp.Examples.World.{world}

abbrev pub token : PublishInfo
token = record {
  url = "https://data.example/7";
  authentication_type = bearer;
  username = "";
  password = "secret";
}

abbrev token_address : DataAddress
token_address = record {
  type = "dspace:DataAddress";
  endpoint_type = "https://w3id.org/idsa/v4.1/HTTPS";
  endpoint = "https://data.example/7";
  endpoint_properties =
      record { type = "dspace:EndpointProperty"; name = "authorization"; value = "secret" }
      ∷ record { type = "dspace:EndpointProperty"; name = "authType"; value = "bearer" }
      ∷ [];
}

publish_info_round_trip_example : data_address_to_publish_info (some token_address) ≡ ok token
unfolding publish_info_to_data_address
publish_info_round_trip_example = publish_info_round_trip token token_address refl refl

-- A provider's transfer of dataset 7, which the consumer pulls.
abbrev pub request : Request world
request = record {
  state = State.started;
  provider_pid = 1;
  consumer_pid = 2;
  agreement_id = 3;
  target = "7";
  format = "HTTP_PULL";
  callback = "them";
  self = "us";
  role = provider;
  publish_info = some token;
  requester_info = none;
  transfer_direction = Direction.pull;
  ro = false;
  modified = false;
  trace_info = record { trace_id = ""; span_id = ""; trace_flags = 0 };
  internal_id = 1;
  locked = true;
}

abbrev session : Session world
session = record { request = request; calls = [] }

abbrev pub env : Env world
env = record {
  get_dataset = λ _. true;
  publish_dataset = λ _ _. some (some token);
  shutdown_transfer = λ _. true;
  new_uuid = 5;
  marshal = λ _. some "body";
}

abbrev pub completion_message : TransferCompletionMessage
completion_message = record {
  context = get_dsp_context;
  type = "dspace:TransferCompletionMessage";
  provider_pid = "x";
  consumer_pid = "xx";
}

abbrev pub completion : TransferMessage world
completion = TransferMessage.completion completion_message

recv_transfer_sound_example :
    Ends world
      (Accepted world "xx" State.completed request)
      (Tracks world request)
      (recv world env completion session)
recv_transfer_sound_example = recv_transfer_sound world env completion session refl (λ e. cc) tt
