-- ===== src/Examples/Histories.antt =====
-- A provider's negotiation from its acceptance to its end: the theorem on histories at a concrete input.
use native.Mathlib.Omega.{arith}
use run_dsp.Prelude.{◌≡◌, refl, true, List, [], ◌∷◌, ◌++◌}
use run_dsp.Contract.State.{State}
use run_dsp.Contract.Negotiation.{Negotiation, set_state, set_callback}
use run_dsp.StateMachine.ContractRecv.{recv, verify_and_transform}
use run_dsp.StateMachine.Histories.{
  History, done, received, reconciled, kept, finalized_after_agreed,
}
use run_dsp.Examples.World.{world, unary}
use run_dsp.Examples.Contracts.{negotiation, env, verification}

abbrev changed : State → Negotiation world
changed s = record (negotiation s) { modified = true }

abbrev changes : List State
changes = State.agreed ∷ State.verified ∷ State.finalized ∷ []

-- The agreement is delivered, the negotiation stored and read, a verification is received, and FINALIZED is
-- delivered.
to_the_end : History world (negotiation State.accepted) changes (changed State.finalized)
unfolding set_state set_callback verify_and_transform recv unary
to_the_end = reconciled {b = changed State.agreed} State.agreed refl (
    kept {b = negotiation State.agreed} refl (
      received {b = changed State.verified} env verification refl refl
        (reconciled State.finalized refl done)))

finalized_after_agreed_example :
    (pre : List State) × (changes ≡ pre ++ State.agreed ∷ State.verified ∷ State.finalized ∷ [])
finalized_after_agreed_example =
    finalized_after_agreed world (negotiation State.accepted) (changed State.finalized) changes
      (omega arith) to_the_end refl
