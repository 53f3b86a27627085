-- ===== src/Examples/Pushing.antt =====
-- The calls on a single transfer: the theorems at concrete inputs.
use run_dsp.Prelude.{refl, true, Option, none, some, List, [], ◌∷◌}
use run_dsp.Role.{consumer}
use run_dsp.Odrl.{Agreement, no_policy}
use run_dsp.Shared.Ids.{urn_to_raw_id}
use run_dsp.Contract.State.{State}
use run_dsp.Contract.Negotiation.{Negotiation}
use run_dsp.Transfer.Request.{Request, new}
use run_dsp.StateMachine.PublishInfo.{publish_info_to_data_address}
use run_dsp.Handlers.Transfers.{Call, Log}
use run_dsp.Control.Transfers.{Setup, new_transfer, initiate_push_transfer}
use run_dsp.Control.Pushing.{Requests, GivesBack, initiate_push_transfer-Requests}
use run_dsp.Control.Completion.{Idle, signal_transfer_complete, signal_transfer_complete-Idle}
use run_dsp.Examples.World.{world, world-IsLawful, read_unary}
use run_dsp.Examples.Contracts.{negotiation}
use run_dsp.Examples.Transfers.{env, token}

unfoldable last_saved : List (Call world) → Option (Request world)
last_saved [] = none
last_saved (Call.saved saved done ∷ l) = some saved
last_saved (_ ∷ l) = last_saved l

abbrev agreement : Agreement world
agreement = record {
  policy = no_policy world;
  type = "odrl:Agreement";
  id = "xxx";
  target = "urn:uuid:7";
  timestamp = tt;
}

abbrev agreed : Negotiation world
agreed = record (negotiation State.finalized) { role = consumer; agreement = some agreement }

-- A store that gives back what was saved last, and a provider that takes the dataset.
abbrev setup : Setup world
setup = record {
  service = record {
    env = env;
    get_transfer = λ l role pid. last_saved l.calls;
    put_transfer = λ l tr. true;
    get_agreement = λ l id. none;
  };
  get_contract = λ l role id. some agreed;
  watch_transfer = λ seconds role pid. none;
  receive_dataset = λ target. some (some token);
  release_transfer = λ l tr. true;
  new_pid = 5;
  callback = "us";
  trace = record { trace_id = ""; span_id = ""; trace_flags = 0 };
  requester = some "me";
}

abbrev nothing_yet : Log world
nothing_yet = record { calls = []; provider = [] }

gives_back : GivesBack world setup
unfolding last_saved
gives_back l saved =
    (saved, refl, record { state = refl; direction = refl; info = refl; requester = refl })

initiate_push_transfer-Requests_example :
    Requests (initiate_push_transfer world setup "x" nothing_yet)
unfolding read_unary new_transfer new urn_to_raw_id publish_info_to_data_address
initiate_push_transfer-Requests_example =
    initiate_push_transfer-Requests world world-IsLawful setup
      (record { marshals = λ m e. cc; saves = λ l tr. refl }) gives_back "x" nothing_yet token
      {id = 1} {cn = agreed} {ag = agreement} {r = "me"} refl refl refl refl refl refl refl

signal_transfer_complete-Idle_example :
    Idle world nothing_yet (signal_transfer_complete world setup 60 "x" nothing_yet)
signal_transfer_complete-Idle_example =
    signal_transfer_complete-Idle world setup (λ l tr. refl) 60 "x" nothing_yet refl
