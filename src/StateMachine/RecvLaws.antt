-- ===== src/StateMachine/RecvLaws.antt =====
-- dsp/statemachine/contract_transitions.go: what `Recv` guarantees of a contract negotiation, for
-- every message.
use mathlib.Core.Path.{subst}
use run_dsp.Prelude.{String, ◌≡◌, ◌≢◌, refl, sym, true, false, if◌then◌else◌}
use run_dsp.Exec.{Outcome, err}
use run_dsp.Extern.{Extern}
use run_dsp.Shared.Messages.{ContractMessage, ContractRequestMessage, ContractOfferMessage}
use run_dsp.Contract.State.{State, of_string, parse_state, eq_state, eq_of_eq_state}
use run_dsp.Contract.Negotiation.{Negotiation, set_state, set_provider_pid, set_consumer_pid}
use run_dsp.StateMachine.Env.{Env, Error, Apply, unsupported_message}
use run_dsp.StateMachine.ContractRecv.{
  recv_in, recv, process_contract_request, process_contract_offer,
}
use run_dsp.StateMachine.Triple.{
  Tracks, Accepted, Accepts, Ends, Accepts-bind, Accepts-guard, Accepts-raise, Accepts-verify,
  Accepts-process_termination, Steps-get, Steps-marshal, Steps-backfill_provider,
  Steps-backfill_consumer, Steps-set_agreement,
}
use native.Mathlib.Omega.{arith}

-- The PIDs that a message carries, and the state that it asks for.
abbrev pub message_provider : (x : Extern) → ContractMessage x → String
message_provider x (ContractMessage.request t) = t.provider_pid
message_provider x (ContractMessage.offer t) = t.provider_pid
message_provider x (ContractMessage.agreement t) = t.provider_pid
message_provider x (ContractMessage.verification t) = t.provider_pid
message_provider x (ContractMessage.event t) = t.provider_pid
message_provider x (ContractMessage.termination t) = t.provider_pid
message_provider x ContractMessage.other = ""

abbrev pub message_consumer : (x : Extern) → ContractMessage x → String
message_consumer x (ContractMessage.request t) = t.consumer_pid
message_consumer x (ContractMessage.offer t) = t.consumer_pid
message_consumer x (ContractMessage.agreement t) = t.consumer_pid
message_consumer x (ContractMessage.verification t) = t.consumer_pid
message_consumer x (ContractMessage.event t) = t.consumer_pid
message_consumer x (ContractMessage.termination t) = t.consumer_pid
message_consumer x ContractMessage.other = ""

abbrev pub message_state : (x : Extern) → ContractMessage x → State
message_state x (ContractMessage.request t) = State.requested
message_state x (ContractMessage.offer t) = State.offered
message_state x (ContractMessage.agreement t) = State.agreed
message_state x (ContractMessage.verification t) = State.verified
message_state x (ContractMessage.event t) = parse_state (of_string t.event_type)
message_state x (ContractMessage.termination t) = State.terminated
message_state x ContractMessage.other = State.initial

ruleset recv_rules = (
  Accepts-bind, Accepts-guard, Accepts-raise, Accepts-verify, Accepts-process_termination,
  Steps-get, Steps-marshal, Steps-backfill_provider, Steps-backfill_consumer, Steps-set_agreement,
)

module _ (x : Extern) (env : Env x) (start : Negotiation x) where
  abbrev AcceptsMessage : State → ContractMessage x → Type 0
  AcceptsMessage s m =
      Accepts x env start (message_provider x m) (message_consumer x m) (message_state x m)
        (recv_in x env s m)

  Accepts-requested : (m : ContractMessage x) → AcceptsMessage State.requested m
  unfolding recv_in
  Accepts-requested (ContractMessage.offer t) = search recv_rules
  Accepts-requested (ContractMessage.agreement t) = search recv_rules
  Accepts-requested (ContractMessage.termination t) = search recv_rules
  Accepts-requested _ = search recv_rules

  Accepts-offered : (m : ContractMessage x) → AcceptsMessage State.offered m
  unfolding recv_in
  Accepts-offered (ContractMessage.request t) = search recv_rules
  Accepts-offered (ContractMessage.event t) = search recv_rules
  Accepts-offered (ContractMessage.termination t) = search recv_rules
  Accepts-offered _ = search recv_rules

  Accepts-accepted : (m : ContractMessage x) → AcceptsMessage State.accepted m
  unfolding recv_in
  Accepts-accepted (ContractMessage.agreement t) = search recv_rules
  Accepts-accepted (ContractMessage.termination t) = search recv_rules
  Accepts-accepted _ = search recv_rules

  Accepts-agreed : (m : ContractMessage x) → AcceptsMessage State.agreed m
  unfolding recv_in
  Accepts-agreed (ContractMessage.verification t) = search recv_rules
  Accepts-agreed (ContractMessage.termination t) = search recv_rules
  Accepts-agreed _ = search recv_rules

  Accepts-verified : (m : ContractMessage x) → AcceptsMessage State.verified m
  unfolding recv_in
  Accepts-verified (ContractMessage.event t) =
      Accepts-guard x env start _ _ _ _ _ _
        (λ (e : eq_state (parse_state (of_string t.event_type)) State.finalized ≡ true).
          rw (eq_of_eq_state (parse_state (of_string t.event_type)) State.finalized e)
            (search recv_rules))
  Accepts-verified (ContractMessage.termination t) = search recv_rules
  Accepts-verified _ = search recv_rules

  Accepts-recv_in : (s : State) (m : ContractMessage x) → s ≢ State.initial → AcceptsMessage s m
  unfolding recv_in
  Accepts-recv_in State.initial m h = absurd (h refl)
  Accepts-recv_in State.requested m h = Accepts-requested m
  Accepts-recv_in State.offered m h = Accepts-offered m
  Accepts-recv_in State.accepted m h = Accepts-accepted m
  Accepts-recv_in State.agreed m h = Accepts-agreed m
  Accepts-recv_in State.verified m h = Accepts-verified m
  Accepts-recv_in State.finalized m h = search recv_rules
  Accepts-recv_in State.terminated m h = search recv_rules

-- `b` is `a` after the first request of a consumer: it has the new provider PID.
pub record Requested (x : Extern) (env : Env x) (a b : Negotiation x) : Type 0 where
  pub state : b.state ≡ State.requested
  pub provider_pid : b.provider_pid ≡ env.new_uuid
  pub consumer_pid : b.consumer_pid ≡ a.consumer_pid
  pub offer : b.offer ≡ a.offer
  pub role : b.role ≡ a.role
  pub initial : b.initial ≡ true
  pub modified : b.modified ≡ true

-- `b` is `a` after the first offer of a provider.
pub record Offered (x : Extern) (env : Env x) (a b : Negotiation x) : Type 0 where
  pub state : b.state ≡ State.offered
  pub provider_pid : b.provider_pid ≡ a.provider_pid
  pub consumer_pid :
      b.consumer_pid
      ≡ (if x.eq_uuid a.consumer_pid x.nil_uuid then env.new_uuid else a.consumer_pid)
  pub offer : b.offer ≡ a.offer
  pub role : b.role ≡ a.role
  pub initial : b.initial ≡ true
  pub modified : b.modified ≡ true

-- `b` is `a` after a refused first message: it still is about the same offer.
pub record Unasked (x : Extern) (a b : Negotiation x) : Type 0 where
  pub offer : b.offer ≡ a.offer
  pub role : b.role ≡ a.role

-- How `Recv` answers the first message of a negotiation.
abbrev pub AnswersFirst :
    (x : Extern) (env : Env x)
    → ContractMessage x
    → Negotiation x
    → Outcome Error (Apply x) × Negotiation x
    → Type 0
AnswersFirst x env (ContractMessage.request t) cn r =
    Ends (λ _. Requested x env cn) (Unasked x cn) r
AnswersFirst x env (ContractMessage.offer t) cn r = Ends (λ _. Offered x env cn) (Unasked x cn) r
AnswersFirst x env _ cn r = r ≡ (err unsupported_message, cn)

module _ (x : Extern) (env : Env x) where
  -- `Recv` of a writable negotiation past INITIAL never panics. If it accepts the message, then the
  -- negotiation is in the state that the message asks for, by a change that `validTransitions`
  -- allows, with the PIDs of the message, and marked as modified; if it returns an error, the state
  -- is as before. Either way the role, the offer, our URL, the flags `autoAccept` and `ro`, the
  -- database id, the requester and each PID that was known stay as they were.
  pub recv_sound :
      (m : ContractMessage x) (cn : Negotiation x)
      → cn.ro ≡ false
      → cn.state ≢ State.initial
      → Ends
          (λ _. Accepted x (message_provider x m) (message_consumer x m) (message_state x m) cn)
          (Tracks x cn)
          (recv x env m cn)
  unfolding recv
  recv_sound m cn w s = (Accepts-recv_in x env cn cn.state m s).at cn (ground arith)

  request_in_initial :
      (t : ContractRequestMessage x) (cn : Negotiation x)
      → cn.ro ≡ false
      → cn.state ≡ State.initial
      → Ends (λ _. Requested x env cn) (Unasked x cn) (process_contract_request x env t cn)
  unfolding process_contract_request set_state set_provider_pid
  request_in_initial t cn w s = ground arith

  offer_in_initial :
      (t : ContractOfferMessage x) (cn : Negotiation x)
      → cn.ro ≡ false
      → cn.state ≡ State.initial
      → Ends (λ _. Offered x env cn) (Unasked x cn) (process_contract_offer x env t cn)
  unfolding process_contract_offer set_state set_consumer_pid
  offer_in_initial t cn w s = ground arith

  initial-AnswersFirst :
      (m : ContractMessage x) (cn : Negotiation x)
      → cn.ro ≡ false
      → cn.state ≡ State.initial
      → AnswersFirst x env m cn (recv_in x env State.initial m cn)
  unfolding recv_in
  initial-AnswersFirst (ContractMessage.request t) cn w s = request_in_initial t cn w s
  initial-AnswersFirst (ContractMessage.offer t) cn w s = offer_in_initial t cn w s
  initial-AnswersFirst _ cn w s = refl

  -- In the state INITIAL, a writable negotiation takes a first request to REQUESTED with a fresh
  -- provider PID, and a first offer to OFFERED with a fresh consumer PID unless one is known; it is
  -- then marked as initial and modified. A refused first message leaves
  -- the offer and the role; any other message is refused and changes nothing.
  pub recv-AnswersFirst :
      (m : ContractMessage x) (cn : Negotiation x)
      → cn.ro ≡ false
      → cn.state ≡ State.initial
      → AnswersFirst x env m cn (recv x env m cn)
  unfolding recv
  recv-AnswersFirst m cn w s =
      subst (λ t. AnswersFirst x env m cn (recv_in x env t m cn)) (sym s)
        (initial-AnswersFirst m cn w s)
