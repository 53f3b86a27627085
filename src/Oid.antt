-- ===== src/Oid.antt =====
-- oid/oid.go: object identifiers, a list of int64 arcs. `none` is a parse error.
pub mod Decimal
pub mod Arcs
pub mod RoundTrip
pub mod Urns
use Prim.Native.Char.{Char, code}
use Prim.Native.String.{[], ◌∷◌, ◌++◌, slice, len}
use mathlib.Core.Option
use text.Mathlib.Text.{starts_with}
use run_dsp.Prelude.{
  ℤ, pos, negsuc, String, Bool, true, false, ◌&&◌, ◌||◌, Option, none, some, List, nat_eq,
  if◌then◌else◌,
}
use run_dsp.Exec.{Outcome, ok, panicked}
use run_dsp.Extern.{Extern}
use run_dsp.Oid.Decimal.{is_digit, parse_int, format_int}

abbrev pub Oid : Type 0
Oid = List ℤ

abbrev pub urn_prefix : String
urn_prefix = "urn:oid:"

-- The expression `validOID`, `^\d[\d\.]+\d$`: what may stand between the ends, the part behind the
-- `+`, the part from the class on, and all of it.
unfoldable pub in_class : Char → Bool
unfolding is_digit
in_class c = is_digit c || nat_eq (code c) b'.'

unfoldable pub class_then_digit : String → Bool
unfolding is_digit in_class
class_then_digit [] = false
class_then_digit (c ∷ []) = is_digit c
class_then_digit (c ∷ (d ∷ s)) = in_class c && class_then_digit (d ∷ s)

unfoldable pub classes_then_digit : String → Bool
unfolding in_class class_then_digit
classes_then_digit [] = false
classes_then_digit (c ∷ s) = in_class c && class_then_digit s

unfoldable pub valid_oid : String → Bool
unfolding is_digit classes_then_digit
valid_oid [] = false
valid_oid (c ∷ s) = is_digit c && classes_then_digit s

-- `strings.Replace(s, old, "", 1)` for an `old` that is not empty.
unfoldable pub remove_first : String → String → String
remove_first old [] = []
remove_first old (c ∷ s) =
    if starts_with (c ∷ s) old
    then slice (c ∷ s) (len old) (len (c ∷ s))
    else c ∷ remove_first old s

unfoldable pub push_front : Char → List String → List String
push_front c List.[] = List.◌∷◌ (c ∷ []) List.[]
push_front c (List.◌∷◌ t ts) = List.◌∷◌ (c ∷ t) ts

-- `strings.Split(s, ".")`
unfoldable pub split_dots : String → List String
unfolding push_front
split_dots [] = List.◌∷◌ "" List.[]
split_dots (c ∷ s) =
    if nat_eq (code c) b'.' then List.◌∷◌ "" (split_dots s) else push_front c (split_dots s)

-- `strings.Join(parts, ".")`
unfoldable pub join_dots : List String → String
join_dots List.[] = ""
join_dots (List.◌∷◌ t List.[]) = t
join_dots (List.◌∷◌ t (List.◌∷◌ u us)) = t ++ ("." ∷ join_dots (List.◌∷◌ u us))

-- The loop over the parts: the first part that is no int64 ends it.
unfoldable pub cons_arc : Option ℤ → Option Oid → Option Oid
cons_arc none rest = none
cons_arc (some n) none = none
cons_arc (some n) (some ns) = some (List.◌∷◌ n ns)

unfoldable pub parse_arcs : List String → Option Oid
unfolding cons_arc parse_int
parse_arcs List.[] = some List.[]
parse_arcs (List.◌∷◌ t ts) = cons_arc (parse_int t) (parse_arcs ts)

unfoldable pub format_arcs : Oid → List String
unfolding format_int
format_arcs List.[] = List.[]
format_arcs (List.◌∷◌ n ns) = List.◌∷◌ (format_int n) (format_arcs ns)

-- `Parse` from the lower-cased text on.
unfoldable pub strip_urn : String → String
unfolding remove_first
strip_urn s = if starts_with s urn_prefix then remove_first urn_prefix s else s

unfoldable pub parse_lower : String → Option Oid
unfolding valid_oid split_dots parse_arcs strip_urn
parse_lower s = let t = strip_urn s in if valid_oid t then parse_arcs (split_dots t) else none

-- `String` and `URN`
unfoldable pub string : Oid → String
unfolding join_dots format_arcs
string o = join_dots (format_arcs o)

unfoldable pub urn : Oid → String
unfolding string
urn o = urn_prefix ++ string o

unfoldable pub or_panic : Option Oid → Outcome (Unit {0}) Oid
or_panic none = panicked
or_panic (some o) = ok o

module _ (x : Extern) where
  unfoldable pub parse : String → Option Oid
  unfolding parse_lower
  parse [] = none
  parse (c ∷ s) = parse_lower (x.to_lower (c ∷ s))

  unfoldable pub must_parse : String → Outcome (Unit {0}) Oid
  unfolding parse or_panic
  must_parse s = or_panic (parse s)
