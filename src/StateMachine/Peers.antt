-- ===== src/StateMachine/Peers.antt =====
-- dsp/statemachine: the other party of a negotiation, and how its `Recv` takes each message that the
-- functions of contract_messages.go build.
use native.Mathlib.Omega.{arith}
use run_dsp.Prelude.{String, ◌⊎◌, ◌≡◌, refl, true, false, some, str_eq, str_eq_self}
use run_dsp.Exec.{Outcome, ok, err, panicked, ◌>>=◌}
use run_dsp.Extern.{Extern, IsLawful}
use run_dsp.Odrl.{Agreement}
use run_dsp.Shared.Messages.{ContractMessage}
use run_dsp.Contract.State.{State, parse_state-state_string}
use run_dsp.Contract.Paths.{Allows}
use run_dsp.Contract.Negotiation.{Negotiation, set_state, set_callback, set_agreement}
use run_dsp.StateMachine.Env.{Env, Error, Apply}
use run_dsp.StateMachine.ContractRecv.{
  recv_in, verify_and_transform, Transition, backfill_provider, backfill_consumer,
}
use run_dsp.StateMachine.ContractSend.{
  request_message, offer_message, agreement_message, event_message, verification_message,
}

-- `b` is the other party's view of the negotiation `a`: both know both PIDs, and agree on the state.
pub record IsPeer (x : Extern) (a b : Negotiation x) : Type 0 where
  pub provider_pid : b.provider_pid ≡ a.provider_pid
  pub consumer_pid : b.consumer_pid ≡ a.consumer_pid
  pub state : b.state ≡ a.state
  pub writable : b.ro ≡ false
  pub provider_known : x.eq_uuid a.provider_pid x.nil_uuid ≡ false
  pub consumer_known : x.eq_uuid a.consumer_pid x.nil_uuid ≡ false

-- The call returned without an error, in a negotiation whose state is `t`.
abbrev pub Reaches : (x : Extern) → State → Outcome Error (Apply x) × Negotiation x → Type 0
Reaches x t (ok _, b) = b.state ≡ t
Reaches x t (err _, b) = ⊥
Reaches x t (panicked, b) = ⊥

module _ (x : Extern) (law : IsLawful x) (env : Env x) where
  urn_matches : (u : x.Uuid) → str_eq (x.urn u) (x.to_lower (x.urn u)) ≡ true
  urn_matches u = rw law.lower-urn (str_eq_self (x.urn u))

  matched_step :
      (u : String) {v : x.Url} (t : State) (af : Apply x) (b : Negotiation x)
      → b.ro ≡ false
      → x.parse_url u ≡ some v
      → Allows b.state t
      → Reaches x t
          (verify_and_transform x env (x.urn b.provider_pid) (x.urn b.consumer_pid) u t af b)
  unfolding verify_and_transform set_callback set_state
  matched_step u t af b w e a =
      rw (urn_matches b.provider_pid, urn_matches b.consumer_pid) (ground arith)

  -- The same, for a message with our PIDs.
  peer_step :
      (u : String) {v : x.Url} (t : State) (af : Apply x) (a b : Negotiation x)
      → IsPeer x a b
      → x.parse_url u ≡ some v
      → Allows a.state t
      → Reaches x t
          (verify_and_transform x env (x.urn a.provider_pid) (x.urn a.consumer_pid) u t af b)
  peer_step u t af a b p e w =
      rw (← p.provider_pid, ← p.consumer_pid) (matched_step u t af b p.writable e (rw p.state w))

  Reaches-bind :
      {A : Type 0} (t : State) (m : Transition x env A) (k : A → Transition x env (Apply x))
      (b : Negotiation x) {v : A} {c : Negotiation x}
      → m b ≡ (ok v, c)
      → Reaches x t (k v c)
      → Reaches x t ((m >>= k) b)
  Reaches-bind t m k b e h = rw e h

  -- A peer knows both PIDs, so it learns none.
  no_provider_to_learn :
      (s : String) (a b : Negotiation x) → IsPeer x a b → backfill_provider x env s b ≡ (ok tt, b)
  no_provider_to_learn s a b p = ground arith

  no_consumer_to_learn :
      (s : String) (a b : Negotiation x) → IsPeer x a b → backfill_consumer x env s b ≡ (ok tt, b)
  no_consumer_to_learn s a b p = ground arith

  pub agreement-Reaches :
      (g : Agreement x) (s : State) (a b : Negotiation x)
      → IsPeer x a b
      → a.state ≡ s
      → (s ≡ State.requested) ⊎ (s ≡ State.accepted)
      → Reaches x State.agreed
          (recv_in x env s (ContractMessage.agreement (agreement_message x g a)) b)
  unfolding recv_in agreement_message set_agreement
  agreement-Reaches g State.requested a b p e h =
      rw (no_provider_to_learn (x.urn a.provider_pid) a b p, p.writable)
        (peer_step (x.url_string a.self) State.agreed _ a _ (ground arith)
          (law.parse-url_string a.self) (rw e refl))
  agreement-Reaches g State.accepted a b p e h = rw p.writable (
      peer_step (x.url_string a.self) State.agreed _ a _ (ground arith)
        (law.parse-url_string a.self) (rw e refl))
  agreement-Reaches g _ a b p e h = absurd (ground arith)

  pub event-Reaches :
      (s t : State) (a b : Negotiation x)
      → IsPeer x a b
      → a.state ≡ s
      → (s ≡ State.offered) × (t ≡ State.accepted) ⊎ (s ≡ State.verified) × (t ≡ State.finalized)
      → Reaches x t (recv_in x env s (ContractMessage.event (event_message x t a)) b)
  unfolding recv_in event_message
  event-Reaches State.offered State.accepted a b p e h = rw parse_state-state_string (
      peer_step (x.url_string b.callback) State.accepted _ a b p (law.parse-url_string b.callback)
        (rw e refl))
  event-Reaches State.verified State.finalized a b p e h = rw parse_state-state_string (
      peer_step (x.url_string b.callback) State.finalized _ a b p (law.parse-url_string b.callback)
        (rw e refl))
  event-Reaches _ _ a b p e h = absurd (ground arith)

  pub verification-Reaches :
      (a b : Negotiation x)
      → IsPeer x a b
      → a.state ≡ State.agreed
      → Reaches x State.verified
          (recv_in x env State.agreed (ContractMessage.verification (verification_message x a)) b)
  unfolding recv_in verification_message
  verification-Reaches a b p e =
      peer_step (x.url_string b.callback) State.verified _ a b p (law.parse-url_string b.callback)
        (rw e refl)

  pub offer-Reaches :
      (a b : Negotiation x) {o : String}
      → IsPeer x a b
      → a.state ≡ State.requested
      → env.marshal_offer b.offer ≡ some o
      → Reaches x State.offered
          (recv_in x env State.requested (ContractMessage.offer (offer_message x a)) b)
  unfolding recv_in offer_message
  offer-Reaches a b p e o =
      rw (p.consumer_known, no_provider_to_learn (x.urn a.provider_pid) a b p, o)
        (peer_step (x.url_string a.self) State.offered _ a b p (law.parse-url_string a.self)
          (rw e refl))

  pub request-Reaches :
      (a b : Negotiation x) {o : String}
      → IsPeer x a b
      → a.state ≡ State.offered
      → env.marshal_offer b.offer ≡ some o
      → Reaches x State.requested
          (recv_in x env State.offered (ContractMessage.request (request_message x a)) b)
  unfolding recv_in request_message
  request-Reaches a b p e o =
      rw (p.provider_known, no_consumer_to_learn (x.urn a.consumer_pid) a b p, o)
        (peer_step (x.url_string a.self) State.requested _ a b p (law.parse-url_string a.self)
          (rw e refl))
