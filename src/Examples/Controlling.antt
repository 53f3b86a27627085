-- ===== src/Examples/Controlling.antt =====
-- The control service: the theorems at concrete inputs.
use run_dsp.Prelude.{refl, true, false, some, Option, none, List, [], ◌∷◌}
use run_dsp.Role.{consumer}
use run_dsp.Contract.State.{State}
use run_dsp.Contract.Negotiation.{Negotiation}
use run_dsp.StateMachine.Env.{Env}
use run_dsp.Handlers.Contracts.{Call, Service}
use run_dsp.Control.Code.{invalid_argument}
use run_dsp.Control.Sending.{verify, accept, run, Sent, Stores}
use run_dsp.Control.Provider.{get_provider_url}
use run_dsp.Control.Contracts.{Setup, contract_request}
use run_dsp.Control.Starting.{GivesBack, contract_request-Sent}
use run_dsp.Control.Steps.{Fails, run-Sent, run-Fails}
use run_dsp.Examples.World.{world, world-IsLawful, read_unary}
use run_dsp.Examples.Contracts.{env, negotiation, some_offer}

-- Everything can be marshalled.
abbrev writing_env : Env world
writing_env = record env { marshal = λ m. some "body" }

-- Our side of the negotiation, which we have asked for ourselves.
abbrev consumer_side : Negotiation world
consumer_side = record (negotiation State.agreed) { role = consumer; requester_info = some "us" }

-- A store with our side of the negotiation in AGREED, in which every call succeeds.
abbrev service : Service world
service = record {
  env = writing_env;
  get_contract = λ l role pid. some consumer_side;
  has_contract = λ l role pid. true;
  put_contract = λ l cn. true;
  release_contract = λ l cn. true;
  put_agreement = λ l a. true;
  apply = λ l af. true;
}

service-Stores : Stores world service
service-Stores = record { contract = λ l cn. refl; agreement = λ l a. refl }

run-Sent_example : Sent State.verified (run world service verify "xx" false [])
unfolding read_unary
run-Sent_example =
    run-Sent world service service-Stores (λ m e. cc) world-IsLawful verify false "xx" [] {pid = 2}
      {cn = consumer_side} {r = "us"} refl refl refl refl refl refl

run-Fails_example : Fails invalid_argument (run world service accept "xx" false [])
unfolding read_unary
run-Fails_example =
    run-Fails world service world-IsLawful accept false "xx" [] {pid = 2} {cn = consumer_side}
      {r = "us"} refl refl refl refl

unfoldable last_saved : List (Call world) → Option (Negotiation world)
last_saved [] = none
last_saved (Call.saved cn done ∷ l) = some cn
last_saved (_ ∷ l) = last_saved l

-- A store that gives back what was saved last.
abbrev keeping : Service world
keeping = record service { get_contract = λ l role pid. last_saved l }

gives_back : GivesBack world keeping
unfolding last_saved
gives_back l cn =
    (cn, refl, record { state = refl; consumer_pid = refl; provider_pid = refl; requester = refl })

-- A provider that speaks our version, and an offer that can be read.
abbrev setup : Setup world
setup = record {
  new_pid = 5;
  self = "us";
  trace = record { trace_id = ""; span_id = ""; trace_flags = 0 };
  requester = record {
    send_http_request = λ method url body. some "versions";
    unmarshal_versions = λ s. some (record { version = "2024-1"; path = "/dsp" } ∷ []);
  };
  unmarshal_offer = λ s. some some_offer;
}

keeping-Stores : Stores world keeping
keeping-Stores = record { contract = λ l cn. refl; agreement = λ l a. refl }

contract_request-Sent_example :
    Sent State.requested (contract_request world keeping setup "" "/them" "offer" false [])
unfolding get_provider_url
contract_request-Sent_example =
    contract_request-Sent world keeping keeping-Stores (λ m e. cc) world-IsLawful setup "/them"
      "offer" false [] gives_back refl refl refl refl
