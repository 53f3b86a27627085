-- ===== src/Shared/Urns.antt =====
-- dsp/shared/id_helpers.go: what `IDToURN` and `URNtoRawID` make of each other's results.
use mathlib.Core.Path.{subst}
use Prim.Native.Char.{code}
use Prim.Native.String.{[], ◌∷◌, ◌++◌}
use text.Mathlib.Text.{starts_with}
use text.Mathlib.TextLemmas.{cons-append, nil-append, append_assoc}
use text.Mathlib.TextPositions.{starts_with-append}
use run_dsp.Prelude.{
  String, ◌≡◌, refl, sym, ap, ◌∙◌, true, false, Bool-cases, Option, none, some, inl, inr, nat_eq,
}
use run_dsp.Extern.{Extern}
use run_dsp.Oid.{Oid, urn, string, parse}
use run_dsp.Shared.Ids.{
  push_char, cut_colon, split_n, third, urn_to_raw_id, urn_of_oid, urn_of_id, id_to_urn,
}

-- What the helpers rely on: `strings.ToLower` works character by character, and a UUID's URN is its
-- text behind `urn:uuid:`.
pub record LowersUrns (x : Extern) : Type 0 where
  pub lower_urn_prefix : (s : String) → x.to_lower ("urn:" ++ s) ≡ "urn:" ++ x.to_lower s
  pub urn_text : (u : x.Uuid) → x.urn u ≡ "urn:uuid:" ++ x.uuid_string u

abbrev NoColon : String → Type 0
NoColon [] = Unit
NoColon (c ∷ s) = (nat_eq (code c) b':' ≡ false) × NoColon s

cut_colon-append : (p s : String) → NoColon p → cut_colon (p ++ (":" ∷ s)) ≡ some (p, s)
unfolding cut_colon push_char
cut_colon-append [] s h = rw (nil-append (":" ∷ s))
cut_colon-append (c ∷ p) s (h, hs) = rw (cons-append c p (":" ∷ s), h, cut_colon-append p s hs)

-- The third part of a URN is all that stands behind its namespace.
third-split_n :
    (p s : String) → NoColon p → third (split_n 3 ("urn" ++ (":" ∷ (p ++ (":" ∷ s))))) ≡ some s
unfolding third split_n
third-split_n p s h = rw (
  split_n,
  third,
  cut_colon-append "urn" (p ++ (":" ∷ s)) (refl, (refl, (refl, tt))),
  cut_colon-append p s h,
)

-- `"urn:"` and a namespace before a text, with the colons as characters.
colon-append : (p s : String) → (p ++ ":") ++ s ≡ p ++ (":" ∷ s)
colon-append p s =
    append_assoc p ":" s
    ∙ ap (λ w. p ++ w) (cons-append ":" "" s ∙ ap (λ w. ":" ∷ w) (nil-append s))

urn_parts : (p s : String) → "urn:" ++ ((p ++ ":") ++ s) ≡ "urn" ++ (":" ∷ (p ++ (":" ∷ s)))
urn_parts p s =
    colon-append "urn" ((p ++ ":") ++ s) ∙ ap (λ w. "urn" ++ (":" ∷ w)) (colon-append p s)

module _ (x : Extern) (lowers : LowersUrns x) where
  abbrev IsUrn : String → Type 0
  IsUrn s = starts_with (x.to_lower s) "urn:" ≡ true

  append-IsUrn : (s : String) → IsUrn ("urn:" ++ s)
  append-IsUrn s =
      ap (λ w. starts_with w "urn:") (lowers.lower_urn_prefix s)
      ∙ starts_with-append "urn:" (x.to_lower s)

  -- A URN of a namespace without a colon: what `URNtoRawID` makes of it.
  urn_to_raw_id_at :
      (p s : String)
      → NoColon p
      → IsUrn ("urn:" ++ ((p ++ ":") ++ s))
        × (urn_to_raw_id x ("urn:" ++ ((p ++ ":") ++ s)) ≡ some s)
  unfolding urn_to_raw_id
  urn_to_raw_id_at p s h =
      let e = append-IsUrn ((p ++ ":") ++ s) in
      (e, rw (e) (ap (λ w. third (split_n 3 w)) (urn_parts p s) ∙ third-split_n p s h))

  urn_to_raw_id-urn : (o : Oid) → IsUrn (urn o) × (urn_to_raw_id x (urn o) ≡ some (string o))
  unfolding urn
  urn_to_raw_id-urn o =
      subst (λ w. IsUrn w × (urn_to_raw_id x w ≡ some (string o)))
        (sym (append_assoc "urn:" "oid:" (string o)))
        (urn_to_raw_id_at "oid" (string o) (refl, (refl, (refl, tt))))

  urn_to_raw_id-uuid_urn :
      (u : x.Uuid) → IsUrn (x.urn u) × (urn_to_raw_id x (x.urn u) ≡ some (x.uuid_string u))
  urn_to_raw_id-uuid_urn u =
      subst (λ w. IsUrn w × (urn_to_raw_id x w ≡ some (x.uuid_string u)))
        (sym (lowers.urn_text u ∙ append_assoc "urn:" "uuid:" (x.uuid_string u)))
        (urn_to_raw_id_at "uuid" (x.uuid_string u) (refl, (refl, (refl, (refl, tt)))))

  urn_to_raw_id_unknown :
      (s : String) → IsUrn ("urn:unknown:" ++ s) × (urn_to_raw_id x ("urn:unknown:" ++ s) ≡ some s)
  urn_to_raw_id_unknown s =
      subst (λ w. IsUrn w × (urn_to_raw_id x w ≡ some s)) (sym (append_assoc "urn:" "unknown:" s))
        (urn_to_raw_id_at "unknown" s (refl, (refl, (refl, (refl, (refl, (refl, (refl, tt))))))))

  -- The plain text of the UUID or the OID that an identifier denotes; any other stays as it is.
  abbrev pub plain_oid : String → Option Oid → String
  plain_oid s none = s
  plain_oid s (some o) = string o

  abbrev pub plain_id : String → Option x.Uuid → String
  plain_id s none = plain_oid s (parse x s)
  plain_id s (some u) = x.uuid_string u

  urn_of_oid-raw :
      (s : String) (o : Option Oid)
      → IsUrn (urn_of_oid x s o) × (urn_to_raw_id x (urn_of_oid x s o) ≡ some (plain_oid s o))
  unfolding urn_of_oid
  urn_of_oid-raw s none = urn_to_raw_id_unknown s
  urn_of_oid-raw s (some o) = urn_to_raw_id-urn o

  urn_of_id-raw :
      (s : String) (u : Option x.Uuid)
      → IsUrn (urn_of_id x s u) × (urn_to_raw_id x (urn_of_id x s u) ≡ some (plain_id s u))
  unfolding urn_of_id
  urn_of_id-raw s none = urn_of_oid-raw s (parse x s)
  urn_of_id-raw s (some u) = urn_to_raw_id-uuid_urn u

  id_to_urn_kept : (s : String) → IsUrn s → id_to_urn x s ≡ s
  unfolding id_to_urn
  id_to_urn_kept s h = rw (h)

  id_to_urn_made :
      (s : String)
      → starts_with (x.to_lower s) "urn:" ≡ false
      → id_to_urn x s ≡ urn_of_id x s (x.parse_uuid s)
  unfolding id_to_urn
  id_to_urn_made s h = rw (h)

  id_to_urn-IsUrn : (s : String) → IsUrn (id_to_urn x s)
  id_to_urn-IsUrn s = elim (Bool-cases (starts_with (x.to_lower s) "urn:")) [
    | inl e ↦ subst IsUrn (sym (id_to_urn_kept s e)) e
    | inr e ↦ subst IsUrn (sym (id_to_urn_made s e)) (urn_of_id-raw s (x.parse_uuid s)).0
  ]

  -- `IDToURN` changes nothing in a URN, its own results included.
  pub id_to_urn_twice : (s : String) → id_to_urn x (id_to_urn x s) ≡ id_to_urn x s
  id_to_urn_twice s = id_to_urn_kept (id_to_urn x s) (id_to_urn-IsUrn s)

  -- `URNtoRawID` reads from the URN that `IDToURN` makes of an identifier that is no URN the plain
  -- text of the UUID or, if it is none, of the OID that it denotes, and else the identifier itself.
  pub urn_to_raw_id-id_to_urn :
      (s : String)
      → starts_with (x.to_lower s) "urn:" ≡ false
      → urn_to_raw_id x (id_to_urn x s) ≡ some (plain_id s (x.parse_uuid s))
  urn_to_raw_id-id_to_urn s h =
      ap (urn_to_raw_id x) (id_to_urn_made s h) ∙ (urn_of_id-raw s (x.parse_uuid s)).1
