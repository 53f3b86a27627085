-- ===== src/Shared/StateNames.antt =====
-- dsp/shared/validation_helpers.go: the texts that the validators of state names accept.
use run_dsp.Prelude.{
  String, ◌≡◌, ◌≢◌, ◌↔◌, refl, sym, ap, ◌∙◌, true, ◌⊎◌, inl, inr, List, [], ◌∷◌, arith,
  contains_text, str_eq, eq_iff, Bool-cases,
}
use run_dsp.Contract.State
use run_dsp.Transfer.State as Transfer
use run_dsp.Shared.Validation.{
  transfer_states, transfer_process_state, contract_states, contract_negotiation_state,
}

-- A text that is a contract state's name, of a state past INITIAL.
pub record NamesContractState (t : String) : Type 0 where
  pub state : State.State
  pub past_initial : state ≢ State.initial
  pub name : State.state_string state ≡ t

pub record NamesTransferState (t : String) : Type 0 where
  pub state : Transfer.State
  pub name : Transfer.state_string state ≡ t

abbrev IsOneOf : String → List String → Type 0
IsOneOf s [] = ⊥
IsOneOf s (t ∷ ts) = (t ≡ s) ⊎ IsOneOf s ts

contains_text-IsOneOf : (s : String) (ts : List String) → contains_text s ts ≡ true → IsOneOf s ts
contains_text-IsOneOf s [] h = cc
contains_text-IsOneOf s (t ∷ ts) h = elim (Bool-cases (str_eq s t)) [
  | inl e ↦ inl (sym ((eq_iff s t).0 e))
  | inr e ↦ inr (contains_text-IsOneOf s ts (ground (arith)))
]

contract_name : (s : String) → contract_negotiation_state s ≡ true → NamesContractState s
unfolding contract_negotiation_state State.state_string
contract_name s h = elim (contains_text-IsOneOf s contract_states h) [
  | inl e ↦ record { state = State.requested; past_initial = cc; name = e }
  | inr (inl e) ↦ record { state = State.offered; past_initial = cc; name = e }
  | inr (inr (inl e)) ↦ record { state = State.accepted; past_initial = cc; name = e }
  | inr (inr (inr (inl e))) ↦ record { state = State.agreed; past_initial = cc; name = e }
  | inr (inr (inr (inr (inl e)))) ↦ record { state = State.verified; past_initial = cc; name = e }
  | inr (inr (inr (inr (inr (inl e))))) ↦ record {
    state = State.finalized;
    past_initial = cc;
    name = e;
  }
  | inr (inr (inr (inr (inr (inr (inl e)))))) ↦ record {
    state = State.terminated;
    past_initial = cc;
    name = e;
  }
  | inr (inr (inr (inr (inr (inr (inr e)))))) ↦ absurd e
]

name_accepted :
    (s : State.State) → s ≢ State.initial → contract_negotiation_state (State.state_string s) ≡ true
unfolding contract_negotiation_state State.state_string
name_accepted State.initial h = absurd (h refl)
name_accepted _ h = refl

transfer_name : (s : String) → transfer_process_state s ≡ true → NamesTransferState s
unfolding transfer_process_state Transfer.state_string
transfer_name s h = elim (contains_text-IsOneOf s transfer_states h) [
  | inl e ↦ record { state = Transfer.initial; name = e }
  | inr (inl e) ↦ record { state = Transfer.requested; name = e }
  | inr (inr (inl e)) ↦ record { state = Transfer.started; name = e }
  | inr (inr (inr (inl e))) ↦ record { state = Transfer.terminated; name = e }
  | inr (inr (inr (inr (inl e)))) ↦ record { state = Transfer.completed; name = e }
  | inr (inr (inr (inr (inr (inl e))))) ↦ record { state = Transfer.suspended; name = e }
  | inr (inr (inr (inr (inr (inr e))))) ↦ absurd e
]

transfer_name_accepted :
    (s : Transfer.State) → transfer_process_state (Transfer.state_string s) ≡ true
unfolding transfer_process_state Transfer.state_string
transfer_name_accepted Transfer.initial = refl
transfer_name_accepted _ = refl

-- The validator `contract_state` accepts the names of the contract states past INITIAL and no other
-- text, and the validator `transfer_state` the names of all transfer states and no other text.
pub state_validators-Names :
    (s : String)
    → ((contract_negotiation_state s ≡ true) ↔ NamesContractState s)
      × ((transfer_process_state s ≡ true) ↔ NamesTransferState s)
state_validators-Names s = (
  (
    contract_name s,
    λ n. ap contract_negotiation_state (sym n.name) ∙ name_accepted n.state n.past_initial,
  ),
  (transfer_name s, λ n. ap transfer_process_state (sym n.name) ∙ transfer_name_accepted n.state),
)
