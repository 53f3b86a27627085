-- ===== src/StateMachine/Histories.antt =====
-- dsp/statemachine/contract_transitions.go and reconciler.go, with dsp/contract/negotiation.go: the states
-- that a stored negotiation has in turn, when `Recv` accepts messages and the reconciler sets states.
use run_dsp.Prelude.{◌<◌, ◌≡◌, refl, ap, false, List, [], ◌∷◌, ◌++◌, arith, Bool-cases, inl, inr}
use mathlib.Core.Path.{subst}
use run_dsp.Exec.{ok}
use run_dsp.Extern.{Extern}
use run_dsp.Shared.Messages.{ContractMessage}
use run_dsp.Contract.State.{State, initial, agreed, verified, finalized, eq_state, eq_of_eq_state}
use run_dsp.Contract.Paths.{Allows, Walk, stay, go, stage, Walk-to_finalized}
use run_dsp.Contract.Negotiation.{Negotiation, set_state}
use run_dsp.StateMachine.Env.{Env, Apply}
use run_dsp.StateMachine.ContractRecv.{recv}
use run_dsp.StateMachine.Triple.{Ends, Tracks, Accepted}
use run_dsp.StateMachine.RecvLaws.{
  AnswersFirst, recv_sound, recv-AnswersFirst, message_provider, message_consumer, message_state,
}

-- `History x a ts b`: from `a`, the negotiation has become `b`, by changes to the states `ts` in turn.
pub data History (x : Extern) : Negotiation x → List State → Negotiation x → Type 0 where
  done : {a : Negotiation x} → History x a [] a
  -- `Recv` of the writable negotiation has accepted a message.
  received :
      {a b c : Negotiation x} {ts : List State} {af : Apply x} (env : Env x) (m : ContractMessage x)
      → a.ro ≡ false
      → recv x env m a ≡ (ok af, b)
      → History x b ts c
      → History x a (b.state ∷ ts) c
  -- The reconciler has set the state that a delivered message asks for, or TERMINATED.
  reconciled :
      {a b c : Negotiation x} {ts : List State} (s : State)
      → set_state x s a ≡ (ok tt, b)
      → History x b ts c
      → History x a (b.state ∷ ts) c
  -- Another step, which keeps the state: to send, to store or to read it, or to learn a PID.
  kept :
      {a b c : Negotiation x} {ts : List State}
      → b.state ≡ a.state
      → History x b ts c
      → History x a ts c

module _ (x : Extern) where
  set_state-Allows :
      (s : State) (a : Negotiation x) {b : Negotiation x}
      → set_state x s a ≡ (ok tt, b)
      → Allows a.state b.state
  unfolding set_state
  set_state-Allows s a h = ground arith

  -- What an accepted first message leads to is allowed from INITIAL.
  first-Allows :
      (env : Env x) (m : ContractMessage x) (a b : Negotiation x) (af : Apply x)
      → AnswersFirst x env m a (ok af, b)
      → a.state ≡ initial
      → Allows a.state b.state
  first-Allows env (ContractMessage.request t) a b af h i = rw (i, h.state) refl
  first-Allows env (ContractMessage.offer t) a b af h i = rw (i, h.state) refl
  first-Allows env _ a b af h i = cc

  recv-Allows :
      (env : Env x) (m : ContractMessage x) (a : Negotiation x) {b : Negotiation x} {af : Apply x}
      → a.ro ≡ false
      → recv x env m a ≡ (ok af, b)
      → Allows a.state b.state
  recv-Allows env m a {b = b} {af = af} w h = elim (Bool-cases (eq_state a.state initial)) [
    | inl e ↦
        let i = eq_of_eq_state a.state initial e in
        first-Allows env m a b af
          (subst (AnswersFirst x env m a) h (recv-AnswersFirst x env m a w i)) i
    | inr e ↦
        let p = message_provider x m in
        let c = message_consumer x m in
        let t = message_state x m in
        let k : Accepted x p c t a b =
          subst (Ends (λ _. Accepted x p c t a) (Tracks x a)) h
            (recv_sound x env m a w (λ i. cc (e, ap (λ s. eq_state s initial) i))) in
        rw (k.state) k.allowed
  ]

  History-Walk :
      {a b : Negotiation x} {ts : List State} → History x a ts b → Walk a.state ts b.state
  History-Walk done = stay
  History-Walk (received {a = a} env m w h r) = go (recv-Allows env m a w h) (History-Walk r)
  History-Walk (reconciled {a = a} s h r) = go (set_state-Allows s a h) (History-Walk r)
  History-Walk (kept {c = c} {ts = ts} h r) = subst (λ s. Walk s ts c.state) h (History-Walk r)

  -- However `Recv` accepts messages and `SetState` sets states in turn, and other steps keep the state
  -- between them: a negotiation that is before its agreement and comes to be finalized went through
  -- AGREED, VERIFIED and FINALIZED as its last three changes of state.
  pub finalized_after_agreed :
      (a b : Negotiation x) (ts : List State)
      → stage a.state < 3
      → History x a ts b
      → b.state ≡ finalized
      → (pre : List State) × (ts ≡ pre ++ agreed ∷ verified ∷ finalized ∷ [])
  finalized_after_agreed a b ts l h f = Walk-to_finalized (History-Walk h) l f
