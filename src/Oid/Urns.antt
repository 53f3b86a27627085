-- ===== src/Oid/Urns.antt =====
-- `Parse` behind `strings.ToLower`: what it makes of the URN that `URN` writes.
use Prim.Native.Char.{Char, code}
use Prim.Native.String.{[], ◌∷◌, ◌++◌}
use text.Mathlib.TextLemmas.{cons-append, nil-append}
use run_dsp.Prelude.{
  ◌≤◌, String, ◌≡◌, refl, sym, ap, ◌∙◌, Bool, true, ◌&&◌, ◌||◌, some, List, arith, ltb, length,
}
use run_dsp.Extern.{Extern}
use run_dsp.Oid.{Oid, urn_prefix, join_dots, format_arcs, string, urn, parse, parse_lower}
use run_dsp.Oid.Decimal.{is_digit}
use run_dsp.Oid.Arcs.{AllArcs}
use run_dsp.Oid.RoundTrip.{
  AllDigits, IsNumeral-AllDigits, AllNumerals, format_arcs-AllNumerals, parse_lower-urn,
}

-- A text that has no letter A to Z and nothing beyond ASCII.
abbrev pub is_plain : Char → Bool
is_plain c = ltb (code c) b'A' || (ltb b'Z' (code c) && ltb (code c) 128)

abbrev pub IsPlain : String → Type 0
IsPlain [] = Unit
IsPlain (c ∷ s) = (is_plain c ≡ true) × IsPlain s

-- What the package relies on in `strings.ToLower`: a plain text stays as it is.
pub record KeepsPlain (x : Extern) : Type 0 where
  pub lower_plain : (s : String) → IsPlain s → x.to_lower s ≡ s

AllDigits-IsPlain : (s : String) → AllDigits s → IsPlain s
unfolding is_digit
AllDigits-IsPlain [] h = tt
AllDigits-IsPlain (c ∷ s) (h, hs) = (ground (arith), AllDigits-IsPlain s hs)

append-IsPlain : (s t : String) → IsPlain s → IsPlain t → IsPlain (s ++ t)
append-IsPlain [] t hs ht = rw (nil-append t) ht
append-IsPlain (c ∷ s) t (h, hs) ht = rw (cons-append c s t) (h, append-IsPlain s t hs ht)

join_dots-IsPlain : (ts : List String) → AllNumerals ts → IsPlain (join_dots ts)
unfolding join_dots
join_dots-IsPlain List.[] h = tt
join_dots-IsPlain (List.◌∷◌ t List.[]) (h, hs) = AllDigits-IsPlain t (IsNumeral-AllDigits t h)
join_dots-IsPlain (List.◌∷◌ t (List.◌∷◌ u us)) (h, hs) =
    append-IsPlain t _ (AllDigits-IsPlain t (IsNumeral-AllDigits t h))
      (refl, join_dots-IsPlain (List.◌∷◌ u us) hs)

urn_text :
    (o : Oid) → urn o ≡ "u" ∷ ("r" ∷ ("n" ∷ (":" ∷ ("o" ∷ ("i" ∷ ("d" ∷ (":" ∷ string o)))))))
unfolding urn
urn_text o =
    let s = string o in
    rw (
      cons-append "u" "rn:oid:" s,
      cons-append "r" "n:oid:" s,
      cons-append "n" ":oid:" s,
      cons-append ":" "oid:" s,
      cons-append "o" "id:" s,
      cons-append "i" "d:" s,
      cons-append "d" ":" s,
      cons-append ":" "" s,
      nil-append s,
    )

pub urn-IsPlain : (o : Oid) → AllArcs o → IsPlain (urn o)
unfolding urn string
urn-IsPlain o h =
    append-IsPlain urn_prefix (string o)
      (refl, (refl, (refl, (refl, (refl, (refl, (refl, (refl, tt))))))))
      (join_dots-IsPlain (format_arcs o) (format_arcs-AllNumerals o h))

module _ (x : Extern) (keeps : KeepsPlain x) where
  pub lower-urn : (o : Oid) → AllArcs o → x.to_lower (urn o) ≡ urn o
  lower-urn o h = keeps.lower_plain (urn o) (urn-IsPlain o h)

  parse_nonempty : (c : Char) (s : String) → parse x (c ∷ s) ≡ parse_lower (x.to_lower (c ∷ s))
  unfolding parse
  parse_nonempty c s = refl

  -- An identifier of two arcs or more, each at least 0 and less than 2 ^ 63, is read back from its
  -- URN, if lower-casing leaves plain texts as they are.
  pub parse-urn : (o : Oid) → AllArcs o → 2 ≤ length o → parse x (urn o) ≡ some o
  parse-urn o hs le =
      ap (parse x) (urn_text o)
      ∙ parse_nonempty "u" _
      ∙ ap (λ w. parse_lower (x.to_lower w)) (sym (urn_text o))
      ∙ ap parse_lower (lower-urn o hs)
      ∙ parse_lower-urn o hs le
