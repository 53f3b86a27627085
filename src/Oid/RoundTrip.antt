-- ===== src/Oid/RoundTrip.antt =====
-- The text and the URN of an identifier, read back.
use Prim.Native.Char.{Char, code}
use Prim.Native.Nat.{◌/◌, ◌%◌, ◌^◌}
use Prim.Native.String.{[], ◌∷◌, ◌++◌, slice, len}
use text.Mathlib.Text.{starts_with}
use text.Mathlib.TextLemmas.{cons-append, nil-append}
use text.Mathlib.TextPositions.{len-append, slice-append_right, starts_with-append}
use run_dsp.Prelude.{
  ℤ, pos, negsuc, ℕ, zero, suc, ◌≤◌, ◌<◌, String, ◌≡◌, refl, sym, ap, ◌∙◌, true, false, Bool-cases,
  some, List, arith, inl, inr, nat_eq, ltb, length,
}
use run_dsp.Oid.{
  Oid, urn_prefix, in_class, class_then_digit, classes_then_digit, valid_oid, remove_first,
  push_front, split_dots, join_dots, cons_arc, parse_arcs, format_arcs, strip_urn, parse_lower,
  string, urn,
}
use run_dsp.Oid.Decimal.{
  is_digit, digit, is_digit-digit, scan, scan-emit, emit, parse_uint, positive, parse_int,
  format_uint, format_int,
}
use run_dsp.Oid.Arcs.{IsArc, AllArcs}

-- A text of digits.
abbrev pub AllDigits : String → Type 0
AllDigits [] = Unit
AllDigits (c ∷ s) = (is_digit c ≡ true) × AllDigits s

abbrev pub IsNumeral : String → Type 0
IsNumeral [] = ⊥
IsNumeral (c ∷ s) = AllDigits (c ∷ s)

emit-IsNumeral : (k n : ℕ) (out : String) → IsNumeral out → IsNumeral (emit k n out)
unfolding emit
emit-IsNumeral zero n out h = h
emit-IsNumeral (suc k) n [] h = absurd h
emit-IsNumeral (suc k) n (c ∷ s) h = elim (Bool-cases (ltb 0 n)) [
  | inl e ↦
      rw (e, IsNumeral)
        (emit-IsNumeral k (n / 10) (digit (n % 10) ∷ (c ∷ s))
          (is_digit-digit (n % 10) (omega arith), h))
  | inr e ↦ rw (e, IsNumeral) h
]

format_uint-IsNumeral : (n : ℕ) → IsNumeral (format_uint n)
unfolding format_uint emit is_digit
format_uint-IsNumeral zero = (refl, tt)
format_uint-IsNumeral (suc n) =
    let e : ltb 0 (suc n) ≡ true = ground arith in
    rw (e, IsNumeral)
      (emit-IsNumeral n (suc n / 10) (digit (suc n % 10) ∷ [])
        (is_digit-digit (suc n % 10) (omega arith), tt))

scan-format_uint : (n : ℕ) → n < 2 ^ 63 → scan (format_uint n) 0 ≡ some n
unfolding format_uint scan is_digit
scan-format_uint zero h = refl
scan-format_uint (suc n) h = scan-emit (suc n) (suc n) [] (omega arith) (omega arith)

parse_int_numeral :
    (t : String) (n : ℕ) → IsNumeral t → n < 2 ^ 63 → scan t 0 ≡ some n → parse_int t ≡ some (pos n)
unfolding parse_int parse_uint positive is_digit
parse_int_numeral [] n u h e = absurd u
parse_int_numeral (c ∷ s) n (uc, us) h e = ground (arith)

-- An int64 that is not negative is read back from its print.
pub parse_int-format_int : (n : ℤ) → IsArc n → parse_int (format_int n) ≡ some n
unfolding format_int
parse_int-format_int (pos n) h =
    parse_int_numeral (format_uint n) n (format_uint-IsNumeral n) h (scan-format_uint n h)
parse_int-format_int (negsuc n) h = absurd h

abbrev pub AllNumerals : List String → Type 0
AllNumerals List.[] = Unit
AllNumerals (List.◌∷◌ t ts) = IsNumeral t × AllNumerals ts

format_int-IsNumeral : (n : ℤ) → IsArc n → IsNumeral (format_int n)
unfolding format_int
format_int-IsNumeral (pos n) h = format_uint-IsNumeral n
format_int-IsNumeral (negsuc n) h = absurd h

pub format_arcs-AllNumerals : (o : Oid) → AllArcs o → AllNumerals (format_arcs o)
unfolding format_arcs
format_arcs-AllNumerals List.[] h = tt
format_arcs-AllNumerals (List.◌∷◌ n ns) (h, hs) =
    (format_int-IsNumeral n h, format_arcs-AllNumerals ns hs)

parse_arcs-format_arcs : (o : Oid) → AllArcs o → parse_arcs (format_arcs o) ≡ some o
unfolding parse_arcs format_arcs cons_arc
parse_arcs-format_arcs List.[] h = refl
parse_arcs-format_arcs (List.◌∷◌ n ns) (h, hs) =
    rw (parse_int-format_int n h, parse_arcs-format_arcs ns hs)

digit-NotDot : (c : Char) → is_digit c ≡ true → nat_eq (code c) b'.' ≡ false
unfolding is_digit
digit-NotDot c h = ground arith

split_dots-digits : (t : String) → AllDigits t → split_dots t ≡ List.◌∷◌ t List.[]
unfolding split_dots push_front
split_dots-digits [] h = refl
split_dots-digits (c ∷ t) (h, hs) = rw (digit-NotDot c h, split_dots-digits t hs)

split_dots-append :
    (t s : String) → AllDigits t → split_dots (t ++ ("." ∷ s)) ≡ List.◌∷◌ t (split_dots s)
unfolding split_dots push_front
split_dots-append [] s h = rw (nil-append ("." ∷ s))
split_dots-append (c ∷ t) s (h, hs) =
    rw (cons-append c t ("." ∷ s), digit-NotDot c h, split_dots-append t s hs)

pub IsNumeral-AllDigits : (t : String) → IsNumeral t → AllDigits t
IsNumeral-AllDigits [] h = absurd h
IsNumeral-AllDigits (c ∷ t) h = h

split_dots-join_dots :
    (t : String) (ts : List String)
    → AllNumerals (List.◌∷◌ t ts)
    → split_dots (join_dots (List.◌∷◌ t ts)) ≡ List.◌∷◌ t ts
unfolding join_dots
split_dots-join_dots t List.[] (h, hs) = split_dots-digits t (IsNumeral-AllDigits t h)
split_dots-join_dots t (List.◌∷◌ u us) (h, hs) =
    rw (split_dots-append t _ (IsNumeral-AllDigits t h), split_dots-join_dots u us hs)

-- The text matches the end of the expression: characters of the class, then a digit.
class_then_digit_cons :
    (c : Char) (s : String)
    → in_class c ≡ true
    → class_then_digit s ≡ true
    → class_then_digit (c ∷ s) ≡ true
unfolding class_then_digit
class_then_digit_cons c [] hc h = cc
class_then_digit_cons c (d ∷ s) hc h = ground (arith)

class_then_digit-numeral : (t : String) → IsNumeral t → class_then_digit t ≡ true
unfolding class_then_digit in_class
class_then_digit-numeral [] h = absurd h
class_then_digit-numeral (c ∷ []) (h, hs) = h
class_then_digit-numeral (c ∷ (d ∷ t)) (h, hs) = ground (arith, class_then_digit-numeral (d ∷ t) hs)

class_then_digit-append :
    (t s : String)
    → AllDigits t
    → class_then_digit s ≡ true
    → class_then_digit (t ++ ("." ∷ s)) ≡ true
unfolding in_class
class_then_digit-append [] s h e = rw (nil-append ("." ∷ s)) (class_then_digit_cons "." s refl e)
class_then_digit-append (c ∷ t) s (h, hs) e =
    rw (cons-append c t ("." ∷ s))
      (class_then_digit_cons c _ (ground (arith)) (class_then_digit-append t s hs e))

class_then_digit-join_dots :
    (t : String) (ts : List String)
    → AllNumerals (List.◌∷◌ t ts)
    → class_then_digit (join_dots (List.◌∷◌ t ts)) ≡ true
unfolding join_dots
class_then_digit-join_dots t List.[] (h, hs) = class_then_digit-numeral t h
class_then_digit-join_dots t (List.◌∷◌ u us) (h, hs) =
    class_then_digit-append t _ (IsNumeral-AllDigits t h) (class_then_digit-join_dots u us hs)

classes_then_digit-append :
    (t s : String)
    → AllDigits t
    → class_then_digit s ≡ true
    → classes_then_digit (t ++ ("." ∷ s)) ≡ true
unfolding classes_then_digit in_class
classes_then_digit-append [] s h e = rw (nil-append ("." ∷ s)) e
classes_then_digit-append (c ∷ t) s (h, hs) e =
    rw (cons-append c t ("." ∷ s)) (ground (arith, class_then_digit-append t s hs e))

-- Two numerals or more with dots between them match `validOID`.
valid_oid-join_dots :
    (t u : String) (us : List String)
    → AllNumerals (List.◌∷◌ t (List.◌∷◌ u us))
    → valid_oid (join_dots (List.◌∷◌ t (List.◌∷◌ u us))) ≡ true
unfolding valid_oid join_dots
valid_oid-join_dots [] u us (h, hs) = absurd h
valid_oid-join_dots (c ∷ t) u us ((hc, ht), hs) =
    rw (cons-append c t ("." ∷ join_dots (List.◌∷◌ u us))) (
      ground (
        arith,
        classes_then_digit-append t (join_dots (List.◌∷◌ u us)) ht
            (class_then_digit-join_dots u us hs),
      ))

remove_first_at :
    (old : String) (c : Char) (s : String)
    → starts_with (c ∷ s) old ≡ true
    → remove_first old (c ∷ s) ≡ slice (c ∷ s) (len old) (len (c ∷ s))
unfolding remove_first
remove_first_at old c s h = rw (h)

-- What stands behind a prefix is what removing the prefix leaves.
remove_first-append : (c : Char) (p s : String) → remove_first (c ∷ p) ((c ∷ p) ++ s) ≡ s
remove_first-append c p s =
    let e = cons-append c p s in
    let h = starts_with-append (c ∷ p) s in
    let k = remove_first_at (c ∷ p) c (p ++ s) (ap (λ w. starts_with w (c ∷ p)) (sym e) ∙ h) in
    ap (remove_first (c ∷ p)) e
    ∙ k
    ∙ ap (λ w. slice w (len (c ∷ p)) (len w)) (sym e)
    ∙ ap (slice ((c ∷ p) ++ s) (len (c ∷ p))) (len-append (c ∷ p) s)
    ∙ slice-append_right (c ∷ p) s

strip_urn-urn_prefix : (s : String) → strip_urn (urn_prefix ++ s) ≡ s
unfolding strip_urn
strip_urn-urn_prefix s = rw (starts_with-append urn_prefix s) (remove_first-append "u" "rn:oid:" s)

pub parse_lower-urn : (o : Oid) → AllArcs o → 2 ≤ length o → parse_lower (urn o) ≡ some o
unfolding parse_lower urn string format_arcs
parse_lower-urn List.[] hs le = absurd (omega arith)
parse_lower-urn (List.◌∷◌ n List.[]) hs le = absurd (omega arith)
parse_lower-urn (List.◌∷◌ n (List.◌∷◌ m ms)) hs le =
    let o = List.◌∷◌ n (List.◌∷◌ m ms) in
    let ns = format_arcs-AllNumerals o hs in
    rw
      (
        strip_urn-urn_prefix (string o),
        valid_oid-join_dots (format_int n) (format_int m) (format_arcs ms) ns,
        split_dots-join_dots (format_int n) (format_arcs (List.◌∷◌ m ms)) ns,
      )
      (parse_arcs-format_arcs o hs)
