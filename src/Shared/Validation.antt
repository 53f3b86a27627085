-- ===== src/Shared/Validation.antt =====
-- dsp/shared/validation_helpers.go: the validators of state names, and the table of all validators.
use run_dsp.Prelude.{String, Bool, List, [], ◌∷◌, contains_text}
use run_dsp.Odrl.Validators

-- `TransferProcessState`
abbrev pub transfer_states : List String
transfer_states =
    "INITIAL" ∷ "dspace:REQUESTED" ∷ "dspace:STARTED" ∷ "dspace:TERMINATED" ∷ "dspace:COMPLETED"
    ∷ "dspace:SUSPENDED" ∷ []

unfoldable pub transfer_process_state : String → Bool
transfer_process_state s = contains_text s transfer_states

-- `ContractNegotiationState`
abbrev pub contract_states : List String
contract_states =
    "dspace:REQUESTED" ∷ "dspace:OFFERED" ∷ "dspace:ACCEPTED" ∷ "dspace:AGREED" ∷ "dspace:VERIFIED"
    ∷ "dspace:FINALIZED" ∷ "dspace:TERMINATED" ∷ []

unfoldable pub contract_negotiation_state : String → Bool
contract_negotiation_state s = contains_text s contract_states

-- `RegisterValidators`
unfoldable pub register_validators : List (String × (String → Bool))
unfolding transfer_process_state contract_negotiation_state Validators.register_validators
register_validators =
    ("transfer_state", transfer_process_state)
    ∷ ("contract_state", contract_negotiation_state)
    ∷ Validators.register_validators
