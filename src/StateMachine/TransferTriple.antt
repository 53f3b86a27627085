-- ===== src/StateMachine/TransferTriple.antt =====
-- Proof rules for the steps of `Recv` in dsp/statemachine/transfer_request_transitions.go.
use native.Mathlib.Omega.{arith}
use run_dsp.Prelude.{String, sym, is_some, not, some, ◌≡◌, true, false, str_eq, ◌||◌}
use mathlib.Core.Path.{subst}
use run_dsp.StateMachine.PublishInfo.{data_address_to_publish_info, publish_info_from, authenticate}
use run_dsp.Exec.{Outcome, ok, err, panicked, get, raise, resume, ◌>>=◌}
use run_dsp.Extern.{Extern}
use run_dsp.Shared.TransferMessages.{DataAddress}
use run_dsp.Transfer.State.{State, Direction, Allows}
use run_dsp.Transfer.Request.{Request, set_state, set_provider_pid, set_publish_info}
use run_dsp.StateMachine.TransferRecv.{
  Env, Error, target_not_found, Session, Transition, verify_and_transform, unpublish_transfer,
  lift_set, has_negotiation_state, unpublish_in, guard, when, is_nil, learn_provider,
  learn_publish_info,
}

-- What a transition keeps of a request.
pub record Keeps (x : Extern) (a b : Request x) : Type 0 where
  pub consumer_pid : b.consumer_pid ≡ a.consumer_pid
  pub agreement_id : b.agreement_id ≡ a.agreement_id
  pub target : b.target ≡ a.target
  pub role : b.role ≡ a.role
  pub transfer_direction : b.transfer_direction ≡ a.transfer_direction
  pub provider_pid : x.eq_uuid a.provider_pid x.nil_uuid ≡ false → b.provider_pid ≡ a.provider_pid

-- `b` is `a` on the way to its next state: writable, and still in the old state.
pub record Tracks (x : Extern) (a b : Request x) : Type 0 where
  pub keeps : Keeps x a b
  pub writable : b.ro ≡ false
  pub state : b.state ≡ a.state

-- `b` is `a` after a message with the consumer PID `c` that asks for the state `t`.
pub record Accepted (x : Extern) (c : String) (t : State) (a b : Request x) : Type 0 where
  pub keeps : Keeps x a b
  pub state : b.state ≡ t
  pub allowed : Allows a.state t
  pub consumer_matches : str_eq (x.urn b.consumer_pid) (x.to_lower c) ≡ true

-- How a call ends: a result that leaves a request with `Q`, an error that leaves one with `F`, no
-- panic.
abbrev pub Ends :
    (x : Extern) {A : Type 0} (Q F : Request x → Type 0) → Outcome Error A × Session x → Type 0
Ends x Q F (ok _, s) = Q s.request
Ends x Q F (err _, s) = F s.request
Ends x Q F (panicked, s) = ⊥

Ends-resume :
    (x : Extern) {A B : Type 0} (Q R F : Request x → Type 0) (r : Outcome Error A × Session x)
    (k : A → Session x → Outcome Error B × Session x)
    → Ends x Q F r
    → ((a : A) (s : Session x) → Q s.request → Ends x R F (k a s))
    → Ends x R F (resume r.0 k r.1)
Ends-resume x Q R F (ok a, s) k h next = next a s h
Ends-resume x Q R F (err e, s) k h next = h
Ends-resume x Q R F (panicked, s) k h next = h

module _ (x : Extern) (env : Env x) (start : Request x) where
  -- A step that leaves the request on its way.
  pub record Steps {A : Type 0} (m : Transition x env A) : Type 0 where
    pub at :
        (s : Session x) → Tracks x start s.request → Ends x (Tracks x start) (Tracks x start) (m s)

  -- A call that accepts a message, or leaves the request on its way.
  pub record Accepts (c : String) (t : State) (m : Transition x env (Unit {0})) : Type 0 where
    pub at :
        (s : Session x)
        → Tracks x start s.request
        → Ends x (Accepted x c t start) (Tracks x start) (m s)

-- A direction that `String` and `unpublishTransfer` know.
abbrev pub IsKnown : Direction → Type 0
IsKnown (Direction.invalid n) = ⊥
IsKnown _ = Unit

module _ (x : Extern) (env : Env x) (start : Request x) where
  pub Steps-get : {A : Type 0} (f : Session x → A) → Steps x env start (get f)
  Steps-get f = record { at = λ cn h. h }

  pub Accepts-raise : (c : String) (t : State) (e : Error) → Accepts x env start c t (raise e)
  Accepts-raise c t e = record { at = λ s h. h }

  pub Accepts-bind :
      {A : Type 0} (c : String) (t : State) (m : Transition x env A)
      (k : A → Transition x env (Unit {0}))
      → Steps x env start m
      → ((a : A) → Accepts x env start c t (k a))
      → Accepts x env start c t (m >>= k)
  Accepts-bind c t m k first next = record {
    at = λ s h.
        Ends-resume x (Tracks x start) (Accepted x c t start) (Tracks x start) (m s) k
          (first.at s h) (λ a s. (next a).at s);
  }

  pub Accepts-verify :
      (p c : String) (t : State)
      → has_negotiation_state x env t ≡ true
      → Accepts x env start c t (verify_and_transform x env p c t)
  unfolding verify_and_transform set_state
  Accepts-verify p c t n = record { at = λ s h. ground arith }

  pub Steps-unpublish_in :
      (d : Direction) (tr : Request x)
      → IsKnown d
      → (s : Session x) → Tracks x start s.request
      → Ends x (Tracks x start) (Tracks x start) (unpublish_in x env d tr s)
  unfolding unpublish_in
  Steps-unpublish_in Direction.unknown tr known s h = h
  Steps-unpublish_in (Direction.invalid n) tr known s h = absurd known
  Steps-unpublish_in Direction.pull tr known s h = ground arith
  Steps-unpublish_in Direction.push tr known s h = ground arith

  pub Steps-unpublish_transfer :
      IsKnown start.transfer_direction → Steps x env start (unpublish_transfer x env)
  unfolding unpublish_transfer
  Steps-unpublish_transfer known = record {
    at = λ s h.
        Steps-unpublish_in s.request.transfer_direction s.request
          (subst IsKnown (sym h.keeps.transfer_direction) known) s h;
  }

  pub Steps-check_dataset : Steps x env start (λ s.
      guard x env
        (not (str_eq s.request.format "HTTP_PULL") || env.get_dataset s.request.target)
        target_not_found
        s)
  Steps-check_dataset = record { at = λ s h. ground arith }

  pub Steps-new_provider_pid : Steps x env start (λ s.
      when x env
        (is_nil x env s.request.provider_pid)
        (lift_set x env (set_provider_pid x env.new_uuid))
        s)
  unfolding set_provider_pid
  Steps-new_provider_pid = record { at = λ s h. ground arith }

  pub Steps-learn_provider :
      (p : String)
      → Steps x env start
          (λ s. when x env (is_nil x env s.request.provider_pid) (learn_provider x env p) s)
  unfolding set_provider_pid
  Steps-learn_provider p = record { at = λ s h. ground arith }

  pub Steps-learn_publish_info :
      (d : DataAddress)
      → Steps x env start (λ s.
        when x env (not (is_some s.request.publish_info)) (learn_publish_info x env (some d)) s)
  unfolding set_publish_info data_address_to_publish_info publish_info_from authenticate
  Steps-learn_publish_info d = record { at = λ s h. ground arith }
