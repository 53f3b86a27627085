-- ===== src/Shared/Ids.antt =====
-- dsp/shared/id_helpers.go: URNs and raw identifiers.
use Prim.Native.Char.{Char, code}
use Prim.Native.String.{◌∷◌, [], ◌++◌}
use text.Mathlib.Text.{starts_with}
use run_dsp.Prelude.{ℕ, zero, suc, String, Option, none, some, List, nat_eq, if◌then◌else◌}
use run_dsp.Extern.{Extern}
use run_dsp.Oid.{Oid, urn, parse}

unfoldable pub push_char : Char → Option (String × String) → Option (String × String)
push_char c none = none
push_char c (some (a, b)) = some (c ∷ a, b)

-- The text before the first colon and the text after it.
unfoldable pub cut_colon : String → Option (String × String)
unfolding push_char
cut_colon [] = none
cut_colon (c ∷ s) = if nat_eq (code c) b':' then some ("", s) else push_char c (cut_colon s)

-- `strings.SplitN(s, ":", n)` for n > 0.
unfoldable pub split_n : ℕ → String → List String
unfolding cut_colon
split_n zero s = List.[]
split_n (suc zero) s = List.◌∷◌ s List.[]
split_n (suc (suc n)) s = elim (cut_colon s) [
  | none ↦ List.◌∷◌ s List.[]
  | some (a, b) ↦ List.◌∷◌ a (split_n (suc n) b)
]

unfoldable pub third : List String → Option String
third (List.◌∷◌ a (List.◌∷◌ b (List.◌∷◌ c List.[]))) = some c
third _ = none

module _ (x : Extern) where
  -- `URNtoRawID`: `none` is the error of a malformed URN.
  unfoldable pub urn_to_raw_id : String → Option String
  unfolding split_n third
  urn_to_raw_id s = if starts_with (x.to_lower s) "urn:" then third (split_n 3 s) else some s

  -- `IDToURN`, for what `uuid.Parse` and `oid.Parse` return.
  unfoldable pub urn_of_oid : String → Option Oid → String
  urn_of_oid s none = "urn:unknown:" ++ s
  urn_of_oid s (some o) = urn o

  unfoldable pub urn_of_id : String → Option x.Uuid → String
  unfolding urn_of_oid
  urn_of_id s none = urn_of_oid s (parse x s)
  urn_of_id s (some u) = x.urn u

  unfoldable pub id_to_urn : String → String
  unfolding urn_of_id
  id_to_urn s = if starts_with (x.to_lower s) "urn:" then s else urn_of_id s (x.parse_uuid s)
