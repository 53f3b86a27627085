-- ===== src/Examples/Validating.antt =====
-- The validators on concrete texts.
use run_dsp.Prelude.{◌≡◌, ◌↔◌, refl, true, false}
use run_dsp.Odrl.Validators.{action, left_operand, operator}
use run_dsp.Shared.Validation.{contract_negotiation_state, transfer_process_state}
use run_dsp.Shared.StateNames.{NamesContractState, NamesTransferState, state_validators-Names}

initial_refused : contract_negotiation_state "INITIAL" ≡ false
unfolding contract_negotiation_state
initial_refused = refl

initial_accepted : transfer_process_state "INITIAL" ≡ true
unfolding transfer_process_state
initial_accepted = refl

state_validators-Names_example :
    ((contract_negotiation_state "dspace:AGREED" ≡ true) ↔ NamesContractState "dspace:AGREED")
    × ((transfer_process_state "dspace:AGREED" ≡ true) ↔ NamesTransferState "dspace:AGREED")
state_validators-Names_example = state_validators-Names "dspace:AGREED"

uses : action "odrl:use" ≡ true
unfolding action
uses = refl

counts : left_operand "odrl:count" ≡ true
unfolding left_operand
counts = refl

-- The operator of ODRL is `odrl:lteq`.
at_most : operator "odrl:lteq" ≡ false
unfolding operator
at_most = refl
