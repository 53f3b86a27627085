-- ===== src/StateMachine/Triple.antt =====
-- Proof rules for the steps of `Recv` in dsp/statemachine/contract_transitions.go: what holds of the
-- negotiation between two steps, and once a message has been accepted.
use run_dsp.Prelude.{
  String, ◌≡◌, refl, Bool, true, false, Option, none, some, arith, str_eq, Bool-cases, inl, inr,
}
use run_dsp.Exec.{Outcome, ok, err, panicked, resume, ◌>>=◌, ◌>>◌, pure, raise, get}
use run_dsp.Extern.{Extern}
use run_dsp.Odrl.{Agreement}
use run_dsp.Shared.Messages.{ContractNegotiationTerminationMessage}
use run_dsp.Contract.State.{State}
use run_dsp.Contract.Paths.{Allows}
use run_dsp.Contract.Negotiation.{
  Negotiation, set_agreement, set_provider_pid, set_consumer_pid, set_callback, set_state,
}
use run_dsp.StateMachine.Env.{Env, Error, Apply, lift_set}
use run_dsp.StateMachine.ContractRecv.{
  Transition, process_termination, guard, from_option, backfill_provider, backfill_consumer,
  verify_and_transform,
}

-- What a transition keeps: who negotiates about what.
pub record Keeps (x : Extern) (a b : Negotiation x) : Type 0 where
  pub role : b.role ≡ a.role
  pub offer : b.offer ≡ a.offer
  pub self : b.self ≡ a.self
  pub auto_accept : b.auto_accept ≡ a.auto_accept
  pub ro : b.ro ≡ a.ro
  pub internal_id : b.internal_id ≡ a.internal_id
  pub requester_info : b.requester_info ≡ a.requester_info
  -- A PID that is known is never replaced.
  pub provider_pid : x.eq_uuid a.provider_pid x.nil_uuid ≡ false → b.provider_pid ≡ a.provider_pid
  pub consumer_pid : x.eq_uuid a.consumer_pid x.nil_uuid ≡ false → b.consumer_pid ≡ a.consumer_pid

-- `b` is `a` on the way to its next state: writable, and still in the old state.
pub record Tracks (x : Extern) (a b : Negotiation x) : Type 0 where
  pub keeps : Keeps x a b
  pub writable : b.ro ≡ false
  pub state : b.state ≡ a.state

-- `b` is `a` after a message with the PIDs `p` and `c` that asks for the state `t`.
pub record Accepted (x : Extern) (p c : String) (t : State) (a b : Negotiation x) : Type 0 where
  pub keeps : Keeps x a b
  pub state : b.state ≡ t
  pub allowed : Allows a.state t
  pub modified : b.modified ≡ true
  pub provider_matches : str_eq (x.urn b.provider_pid) (x.to_lower p) ≡ true
  pub consumer_matches : str_eq (x.urn b.consumer_pid) (x.to_lower c) ≡ true

-- How a call ends: a result that meets `Q`, an error that leaves a negotiation with `F`, no panic.
abbrev pub Ends : {S A : Type 0} → (A → S → Type 0) → (S → Type 0) → Outcome Error A × S → Type 0
Ends Q F (ok a, s) = Q a s
Ends Q F (err e, s) = F s
Ends Q F (panicked, s) = ⊥

pub Ends-resume :
    {S A B : Type 0} (Q : A → S → Type 0) (R : B → S → Type 0) (F : S → Type 0)
    (r : Outcome Error A × S) (k : A → S → Outcome Error B × S)
    → Ends Q F r
    → ((a : A) (s : S) → Q a s → Ends R F (k a s))
    → Ends R F (resume r.0 k r.1)
Ends-resume Q R F (ok a, s) k h next = next a s h
Ends-resume Q R F (err e, s) k h next = h
Ends-resume Q R F (panicked, s) k h next = h

module _ (x : Extern) (env : Env x) (start : Negotiation x) where
  -- A step that leaves the negotiation on its way.
  pub record Steps {A : Type 0} (m : Transition x env A) : Type 0 where
    pub at :
        (cn : Negotiation x)
        → Tracks x start cn
        → Ends (λ _. Tracks x start) (Tracks x start) (m cn)

  -- A call that accepts a message, or leaves the negotiation on its way.
  pub record Accepts (p c : String) (t : State) (m : Transition x env (Apply x)) : Type 0 where
    pub at :
        (cn : Negotiation x)
        → Tracks x start cn
        → Ends (λ _. Accepted x p c t start) (Tracks x start) (m cn)

module _ (x : Extern) (env : Env x) (start : Negotiation x) where
  pub Steps-get : {A : Type 0} (f : Negotiation x → A) → Steps x env start (get f)
  Steps-get f = record { at = λ cn h. h }

  pub Steps-marshal :
      (e : Error) (f : Negotiation x → Option String)
      → Steps x env start (λ cn. from_option x env e (f cn) cn)
  Steps-marshal e f = record { at = λ cn h. marshalled (f cn) cn h }
    where
      marshalled :
          (o : Option String) (cn : Negotiation x)
          → Tracks x start cn
          → Ends (λ _. Tracks x start) (Tracks x start) (from_option x env e o cn)
      marshalled none cn h = h
      marshalled (some s) cn h = h

  pub Steps-backfill_provider : (s : String) → Steps x env start (backfill_provider x env s)
  unfolding set_provider_pid
  Steps-backfill_provider s = record { at = λ cn h. ground arith }

  pub Steps-backfill_consumer : (s : String) → Steps x env start (backfill_consumer x env s)
  unfolding set_consumer_pid
  Steps-backfill_consumer s = record { at = λ cn h. ground arith }

  pub Steps-set_agreement : (a : Agreement x) → Steps x env start (lift_set x (set_agreement x a))
  unfolding set_agreement
  Steps-set_agreement a = record { at = λ cn h. ground arith }

  pub Accepts-raise : (p c : String) (t : State) (e : Error) → Accepts x env start p c t (raise e)
  Accepts-raise p c t e = record { at = λ cn h. h }

  pub Accepts-bind :
      {A : Type 0} (p c : String) (t : State) (m : Transition x env A)
      (k : A → Transition x env (Apply x))
      → Steps x env start m
      → ((a : A) → Accepts x env start p c t (k a))
      → Accepts x env start p c t (m >>= k)
  Accepts-bind p c t m k first next = record {
    at = λ cn h.
        Ends-resume (λ _. Tracks x start) (λ _. Accepted x p c t start) (Tracks x start) (m cn) k
          (first.at cn h) (λ a s. (next a).at s);
  }

  pub Accepts-guard :
      (p c : String) (t : State) (b : Bool) (e : Error) (k : Unit → Transition x env (Apply x))
      → (b ≡ true → Accepts x env start p c t (k tt))
      → Accepts x env start p c t (guard x env b e >>= k)
  Accepts-guard p c t true e k next = next refl
  Accepts-guard p c t false e k next = record { at = λ cn h. h }

  -- The end of `verifyAndTransform`, once both PIDs have matched.
  matched-Accepts :
      (p c u : String) (t : State) (af : Apply x) (cn : Negotiation x)
      → Tracks x start cn
      → str_eq (x.urn cn.provider_pid) (x.to_lower p) ≡ true
      → str_eq (x.urn cn.consumer_pid) (x.to_lower c) ≡ true
      → Ends
          (λ _. Accepted x p c t start)
          (Tracks x start)
          ((lift_set x (set_callback x u) >> (lift_set x (set_state x t) >> pure af)) cn)
  unfolding set_callback set_state
  matched-Accepts p c u t af cn h hp hc = ground arith

  pub Accepts-verify :
      (p c u : String) (t : State) (af : Apply x)
      → Accepts x env start p c t (verify_and_transform x env p c u t af)
  unfolding verify_and_transform
  Accepts-verify p c u t af = record {
    at = λ cn h. elim (Bool-cases (str_eq (x.urn cn.provider_pid) (x.to_lower p))) [
      | inr e ↦ rw e h
      | inl hp ↦ elim (Bool-cases (str_eq (x.urn cn.consumer_pid) (x.to_lower c))) [
        | inr e ↦ rw (hp, e) h
        | inl hc ↦ rw (hp, hc) (matched-Accepts p c u t af cn h hp hc)
      ]
    ];
  }

  pub Accepts-process_termination :
      (m : ContractNegotiationTerminationMessage)
      → Accepts x env start m.provider_pid m.consumer_pid State.terminated
          (process_termination x env m)
  unfolding process_termination
  Accepts-process_termination m = search (Accepts-bind, Steps-get, Accepts-verify)
