-- ===== src/Transfer/State.antt =====
-- dsp/transfer/state.go and states_enums.go, and the transition table and the directions of request.go
use Prim.Native.String.{slice}
use run_dsp.Prelude.{
  ℕ, ◌+◌, String, ◌≡◌, ◌⊎◌, inl, inr, refl, sym, eq_iff, Bool, true, false, ◌||◌, Option, none,
  some, List, [], ◌∷◌, arith, nat_eq, str_eq, get_elem?, get_or, if◌then◌else◌,
}

pub data State : Type 0 where
  initial requested started suspended completed terminated : State

-- The constant's `int`.
abbrev pub ordinal : State → ℕ
ordinal initial = 0
ordinal requested = 1
ordinal started = 2
ordinal suspended = 3
ordinal completed = 4
ordinal terminated = 5

-- `==` of two states.
abbrev pub eq_state : State → State → Bool
eq_state s t = nat_eq (ordinal s) (ordinal t)

-- `States.All()`
abbrev pub all_states : List State
all_states = initial ∷ requested ∷ started ∷ suspended ∷ completed ∷ terminated ∷ []

abbrev pub invalid_state : State
invalid_state = initial

abbrev states_name : String
states_name =
    "INITIALdspace:REQUESTEDdspace:STARTEDdspace:SUSPENDEDdspace:COMPLETEDdspace:TERMINATED"

abbrev states_index : List ℕ
states_index = 0 ∷ 7 ∷ 23 ∷ 37 ∷ 53 ∷ 69 ∷ 86 ∷ []

-- `String`: a slice of the table of names.
unfoldable pub state_string : State → String
state_string s =
    slice states_name (get_or 0 (get_elem? states_index (ordinal s)))
      (get_or 0 (get_elem? states_index (ordinal s + 1)))

unfoldable pub string_to_state : String → State
string_to_state s =
    if str_eq s "INITIAL"
    then initial
    else if str_eq s "dspace:REQUESTED"
    then requested
    else if str_eq s "dspace:STARTED"
    then started
    else if str_eq s "dspace:SUSPENDED"
    then suspended
    else if str_eq s "dspace:COMPLETED"
    then completed
    else if str_eq s "dspace:TERMINATED"
    then terminated
    else invalid_state

unfoldable pub int_to_state : ℕ → State
int_to_state i = get_or invalid_state (get_elem? all_states i)

-- `ParseState` at a text, the only argument that the program gives it.
unfoldable pub parse_state : String → State
unfolding string_to_state
parse_state s = string_to_state s

-- `validTransferTransitions`; the table has no entry for TERMINATED, which reads as an empty one.
abbrev pub valid_transitions : State → List State
valid_transitions initial = requested ∷ terminated ∷ []
valid_transitions requested = started ∷ terminated ∷ []
valid_transitions started = suspended ∷ completed ∷ terminated ∷ []
valid_transitions suspended = started ∷ terminated ∷ []
valid_transitions completed = []
valid_transitions terminated = []

-- `slices.Contains(states, s)`
abbrev pub contains : State → List State → Bool
contains s [] = false
contains s (t ∷ ts) = eq_state s t || contains s ts

-- `validTransferTransitions` allows the change.
abbrev pub Allows : State → State → Type 0
Allows s t = contains t (valid_transitions s) ≡ true

-- `Direction` is a `uint8`; `invalid n` is the byte n + 3.
pub data Direction : Type 0 where
  unknown pull push : Direction
  invalid : ℕ → Direction

-- `ParseDirection`; `none` is its error.
unfoldable pub parse_direction : String → Option Direction
parse_direction s =
    if str_eq s "UNKNOWN"
    then some unknown
    else if str_eq s "PULL"
    then some pull
    else if str_eq s "PUSH"
    then some push
    else none

-- `String`; `none` is its panic.
unfoldable pub direction_string : Direction → Option String
direction_string unknown = some "UNKNOWN"
direction_string pull = some "PULL"
direction_string push = some "PUSH"
direction_string (invalid _) = none

pub parse_state-state_string : (s : State) → parse_state (state_string s) ≡ s
unfolding parse_state state_string
parse_state-state_string initial = refl
parse_state-state_string _ = refl

pub int_to_state-ordinal : (s : State) → int_to_state (ordinal s) ≡ s
unfolding int_to_state
int_to_state-ordinal initial = refl
int_to_state-ordinal _ = refl

-- The only text that is read as a state past INITIAL is that state's name.
of_name : {s t : String} → str_eq t s ≡ true → s ≡ t
of_name {s = s} {t = t} h = sym ((eq_iff t s).0 h)

name_or_initial :
    (s : State) (t : String) → string_to_state t ≡ s → (s ≡ initial) ⊎ (state_string s ≡ t)
unfolding string_to_state state_string
name_or_initial initial t h = inl refl
name_or_initial requested t h = inr (of_name (ground arith))
name_or_initial started t h = inr (of_name (ground arith))
name_or_initial suspended t h = inr (of_name (ground arith))
name_or_initial completed t h = inr (of_name (ground arith))
name_or_initial terminated t h = inr (of_name (ground arith))

-- `ParseState` reads the name of every transfer state back as the state, and `intToState` its number.
-- No other text is read as a state past INITIAL: a text that is no name becomes INITIAL.
pub transfer_state_round_trip :
    (s : State) (t : String)
    → (parse_state (state_string s) ≡ s)
      × (int_to_state (ordinal s) ≡ s)
      × ((parse_state t ≡ initial) ⊎ (state_string (parse_state t) ≡ t))
unfolding parse_state
transfer_state_round_trip s t =
    (parse_state-state_string s, int_to_state-ordinal s, name_or_initial (string_to_state t) t refl)

of_direction_string : {s t : String} → some s ≡ some t → s ≡ t
of_direction_string h = cc

-- A direction that prints parses back to itself.
pub parse_direction-direction_string :
    (d : Direction) {s : String} → direction_string d ≡ some s → parse_direction s ≡ some d
unfolding parse_direction direction_string
parse_direction-direction_string unknown h = rw (← of_direction_string h)
parse_direction-direction_string pull h = rw (← of_direction_string h)
parse_direction-direction_string push h = rw (← of_direction_string h)
parse_direction-direction_string (invalid n) h = cc
