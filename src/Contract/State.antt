-- ===== src/Contract/State.antt =====
-- dsp/contract/state.go, states_enums.go and the transition table of negotiation.go
use Prim.Native.String.{slice}
use run_dsp.Prelude.{
  ℕ, ◌+◌, String, ◌≡◌, ◌⊎◌, inl, inr, refl, sym, eq_iff, Bool, true, false, ◌||◌, List, [], ◌∷◌,
  arith, nat_eq, str_eq, get_elem?, get_or, if◌then◌else◌,
}

pub data State : Type 0 where
  initial requested offered agreed accepted verified finalized terminated : State

-- The constant's `int`.
abbrev pub ordinal : State → ℕ
ordinal initial = 0
ordinal requested = 1
ordinal offered = 2
ordinal agreed = 3
ordinal accepted = 4
ordinal verified = 5
ordinal finalized = 6
ordinal terminated = 7

-- `==` of two states.
abbrev pub eq_state : State → State → Bool
eq_state s t = nat_eq (ordinal s) (ordinal t)

-- `States.All()`
abbrev pub all_states : List State
all_states =
    initial ∷ requested ∷ offered ∷ agreed ∷ accepted ∷ verified ∷ finalized ∷ terminated ∷ []

abbrev pub invalid_state : State
invalid_state = initial

abbrev states_name : String
states_name =
    "INITIALdspace:REQUESTEDdspace:OFFEREDdspace:AGREEDdspace:ACCEPTEDdspace:VERIFIEDdspace:FINALIZEDdspace:TERMINATED"

abbrev states_index : List ℕ
states_index = 0 ∷ 7 ∷ 23 ∷ 37 ∷ 50 ∷ 65 ∷ 80 ∷ 96 ∷ 113 ∷ []

-- `String`: a slice of the table of names. A `State` is always in the table's range.
unfoldable pub state_string : State → String
state_string s =
    slice states_name (get_or 0 (get_elem? states_index (ordinal s)))
      (get_or 0 (get_elem? states_index (ordinal s + 1)))

-- The dynamic types that `ParseState` tells apart. A `fmt.Stringer` is given by its text, and the
-- three integer types by their sign: `negative` for one below zero.
pub data StateArgument : Type 0 where
  of_state : State → StateArgument
  of_bytes of_string of_stringer : String → StateArgument
  of_int : ℕ → StateArgument
  negative other : StateArgument

unfoldable pub string_to_state : String → State
string_to_state s =
    if str_eq s "INITIAL"
    then initial
    else if str_eq s "dspace:REQUESTED"
    then requested
    else if str_eq s "dspace:OFFERED"
    then offered
    else if str_eq s "dspace:AGREED"
    then agreed
    else if str_eq s "dspace:ACCEPTED"
    then accepted
    else if str_eq s "dspace:VERIFIED"
    then verified
    else if str_eq s "dspace:FINALIZED"
    then finalized
    else if str_eq s "dspace:TERMINATED"
    then terminated
    else invalid_state

unfoldable pub int_to_state : ℕ → State
int_to_state i = get_or invalid_state (get_elem? all_states i)

-- `ParseState`: the error that it returns is always nil, so only the state is modelled.
unfoldable pub parse_state : StateArgument → State
unfolding string_to_state int_to_state
parse_state (of_state s) = s
parse_state (of_bytes s) = string_to_state s
parse_state (of_string s) = string_to_state s
parse_state (of_stringer s) = string_to_state s
parse_state (of_int i) = int_to_state i
parse_state negative = invalid_state
parse_state other = invalid_state

-- `validTransitions`
abbrev pub valid_transitions : State → List State
valid_transitions initial = offered ∷ requested ∷ terminated ∷ []
valid_transitions requested = offered ∷ agreed ∷ terminated ∷ []
valid_transitions offered = requested ∷ accepted ∷ terminated ∷ []
valid_transitions accepted = agreed ∷ terminated ∷ []
valid_transitions agreed = verified ∷ terminated ∷ []
valid_transitions verified = finalized ∷ terminated ∷ []
valid_transitions finalized = []
valid_transitions terminated = []

-- `slices.Contains(states, s)`
abbrev pub contains : State → List State → Bool
contains s [] = false
contains s (t ∷ ts) = eq_state s t || contains s ts

pub parse_state-state_string : (s : State) → parse_state (of_string (state_string s)) ≡ s
unfolding parse_state state_string
parse_state-state_string initial = refl
parse_state-state_string _ = refl

pub parse_state-ordinal : (s : State) → parse_state (of_int (ordinal s)) ≡ s
unfolding parse_state
parse_state-ordinal initial = refl
parse_state-ordinal _ = refl

-- Two states that compare equal are equal.
pub eq_of_eq_state : (s t : State) → eq_state s t ≡ true → s ≡ t
eq_of_eq_state s t h = ground arith

-- The only text that is read as a state past INITIAL is that state's name.
of_name : {s t : String} → str_eq t s ≡ true → s ≡ t
of_name {s = s} {t = t} h = sym ((eq_iff t s).0 h)

name_or_initial :
    (s : State) (t : String) → string_to_state t ≡ s → (s ≡ initial) ⊎ (state_string s ≡ t)
unfolding string_to_state state_string
name_or_initial initial t h = inl refl
name_or_initial requested t h = inr (of_name (ground arith))
name_or_initial offered t h = inr (of_name (ground arith))
name_or_initial agreed t h = inr (of_name (ground arith))
name_or_initial accepted t h = inr (of_name (ground arith))
name_or_initial verified t h = inr (of_name (ground arith))
name_or_initial finalized t h = inr (of_name (ground arith))
name_or_initial terminated t h = inr (of_name (ground arith))

-- `ParseState` reads the name of every state, and its number, back as the state. It reads no other
-- text as a state past INITIAL: a text that is no name becomes INITIAL.
pub contract_state_round_trip :
    (s : State) (t : String)
    → (parse_state (of_string (state_string s)) ≡ s)
      × (parse_state (of_int (ordinal s)) ≡ s)
      × ((parse_state (of_string t) ≡ initial) ⊎ (state_string (parse_state (of_string t)) ≡ t))
unfolding parse_state
contract_state_round_trip s t =
    (parse_state-state_string s, parse_state-ordinal s, name_or_initial (string_to_state t) t refl)
