-- ===== src/Examples/Reconciling.antt =====
-- The reconciler: the theorems at concrete inputs.
use native.Mathlib.Omega.{arith}
use run_dsp.Prelude.{◌≡◌, refl, true, false, none, some, [], ◌∷◌, if◌then◌else◌}
use run_dsp.Exec.{panicked}
use run_dsp.Role.{consumer}
use run_dsp.Contract.State.{State, parse_state}
use run_dsp.Contract.Negotiation.{Negotiation, set_state}
use run_dsp.Jsonld.{get_dsp_context}
use run_dsp.StateMachine.Updater.{
  World, of_negotiation, locked, failed, apply_response, parse_negotiation_ack, get_state_updater,
  new_negotiation_updater,
}
use run_dsp.StateMachine.Reconciler.{Operation, Reconciler, reconcile_entry, add, manager}
use run_dsp.StateMachine.Locks.{is_held, Serves, reconcile_entry-is_held}
use run_dsp.StateMachine.GivingUp.{Refuses, reconcile_entry-panicked}
use run_dsp.StateMachine.Queue.{started, added, ticked, IsBounded, Run-IsBounded}
use run_dsp.StateMachine.Acknowledgement.{Learned, apply_response-Learned}
use run_dsp.Examples.World.{world}
use run_dsp.Examples.Contracts.{entry, negotiation}

-- The consumer's negotiation, as it was read for writing.
abbrev agreed : Negotiation world
agreed = record (negotiation State.agreed) { role = consumer }

abbrev verified : Negotiation world
verified = record agreed { state = State.verified; modified = true }

-- A store that does not give out a locked record, and a party that cannot be reached.
abbrev unreachable : World world
unreachable = record {
  get_contract = λ l u d. if is_held l then none else some agreed;
  get_transfer = λ l u d. none;
  put = λ l r. true;
  release = λ l r. true;
  send_http_request = λ l e. failed false;
  unmarshal_ack = λ body. some (record {
    context = get_dsp_context;
    type = "dspace:ContractNegotiation";
    provider_pid = "x";
    consumer_pid = "xx";
    state = "dspace:VERIFIED";
  });
  now = λ l. 7;
  draw = λ l i. i;
}

abbrev last_try : Operation world
last_try = record {
  submitted = 1;
  next_attempt = 2;
  attempts = 50;
  entry = entry;
  current_interval = 500000000;
}

abbrev empty : Reconciler world
empty = record { queue = []; handed = none; log = [] }

unreachable-Serves : Serves world unreachable
unreachable-Serves = record {
  releases = λ l r. refl;
  writable_contract = λ l u d cn h. ground arith;
  writable_transfer = λ l u d tr h. cc;
}

unreachable-Refuses : Refuses world unreachable
unreachable-Refuses l u d h = (rw h refl, refl)

reconcile_entry-is_held_example :
    is_held (reconcile_entry world unreachable last_try empty).1.log ≡ false
reconcile_entry-is_held_example =
    reconcile_entry-is_held world unreachable unreachable-Serves last_try empty refl

reconcile_entry-panicked_example : (reconcile_entry world unreachable last_try empty).0 ≡ panicked
unfolding get_state_updater new_negotiation_updater set_state parse_state
reconcile_entry-panicked_example =
    reconcile_entry-panicked world unreachable unreachable-Refuses last_try empty false
      {r = of_negotiation verified} {l = locked (of_negotiation agreed) ∷ []} refl refl
      (omega arith)

-- An operation that may be tried once more.
abbrev waiting : Reconciler world
waiting = record { queue = record last_try { attempts = 49 } ∷ []; handed = none; log = [] }

waiting-IsBounded : IsBounded world waiting
waiting-IsBounded = record { queued = ((omega arith, omega arith), tt); handed = tt }

Run-IsBounded_example :
    IsBounded world (add world unreachable entry (manager world unreachable waiting))
Run-IsBounded_example =
    Run-IsBounded world unreachable waiting-IsBounded (added (ticked started refl) entry)

-- A consumer that does not know the provider's PID yet.
abbrev requested : Negotiation world
requested = record agreed { state = State.requested; provider_pid = 0 }

apply_response-Learned_example :
    Learned world
      (parse_negotiation_ack world unreachable "ack")
      (of_negotiation requested)
      (apply_response world unreachable "ack" (of_negotiation requested))
apply_response-Learned_example =
    apply_response-Learned world unreachable "ack" (of_negotiation requested) refl
