-- ===== src/Oid/Decimal.antt =====
-- `strconv.ParseInt` and `strconv.FormatInt` as oid/oid.go calls them: base 10, 64 bits.
use Prim.Native.Char.{Char, code}
use Prim.Native.Nat.{◌/◌, ◌%◌, ◌^◌}
use Prim.Native.String.{[], ◌∷◌}
use run_dsp.Prelude.{
  ℤ, pos, negsuc, ℕ, zero, suc, ◌+◌, ◌-◌, ◌*◌, ◌≤◌, ◌<◌, String, ◌≡◌, Bool, true, false, ◌&&◌,
  Option, none, some, List, arith, nat_eq, length, get_elem?, get_or, ltb, leb, if◌then◌else◌,
}

unfoldable pub is_digit : Char → Bool
is_digit c = leb b'0' (code c) && leb (code c) b'9'

abbrev pub max_u64 : ℕ
max_u64 = 2 ^ 64 - 1

-- `ParseUint` from the value read so far on.
unfoldable pub scan : String → ℕ → Option ℕ
unfolding is_digit
scan [] n = some n
scan (c ∷ s) n =
    let m = n * 10 + (code c - b'0') in if is_digit c && leb m max_u64 then scan s m else none

unfoldable pub parse_uint : String → Option ℕ
unfolding scan
parse_uint [] = none
parse_uint (c ∷ s) = scan (c ∷ s) 0

unfoldable pub positive : Option ℕ → Option ℤ
positive none = none
positive (some n) = if ltb n (2 ^ 63) then some (pos n) else none

unfoldable pub negative : Option ℕ → Option ℤ
negative none = none
negative (some zero) = some (pos 0)
negative (some (suc n)) = if ltb n (2 ^ 63) then some (negsuc n) else none

unfoldable pub parse_int : String → Option ℤ
unfolding positive negative parse_uint
parse_int [] = none
parse_int (c ∷ s) =
    if nat_eq (code c) b'+'
    then positive (parse_uint s)
    else if nat_eq (code c) b'-'
    then negative (parse_uint s)
    else positive (parse_uint (c ∷ s))

-- The digits, in ascending order.
abbrev decimal_digits : List Char
decimal_digits = List.◌∷◌ "0" (
    List.◌∷◌ "1" (
      List.◌∷◌ "2" (
        List.◌∷◌ "3" (
          List.◌∷◌ "4"
            (List.◌∷◌ "5" (List.◌∷◌ "6" (List.◌∷◌ "7" (List.◌∷◌ "8" (List.◌∷◌ "9" List.[])))))))))

unfoldable pub digit : ℕ → Char
digit d = get_or "0" (get_elem? decimal_digits d)

-- The digits of a positive number before `out`; a number has at most as many as its value.
unfoldable pub emit : ℕ → ℕ → String → String
unfolding digit
emit zero n out = out
emit (suc k) n out = elim (ltb 0 n) [ true ↦ emit k (n / 10) (digit (n % 10) ∷ out) | false ↦ out ]

unfoldable pub format_uint : ℕ → String
unfolding emit
format_uint zero = "0"
format_uint (suc n) = emit (suc n) (suc n) []

unfoldable pub format_int : ℤ → String
unfolding format_uint
format_int (pos n) = format_uint n
format_int (negsuc n) = "-" ∷ format_uint (suc n)

abbrev Ascending : ℕ → List Char → Type 0
Ascending k List.[] = Unit
Ascending k (List.◌∷◌ c cs) = (code c ≡ k) × Ascending (suc k) cs

code-get_elem? :
    (k : ℕ) (cs : List Char) (d : ℕ)
    → Ascending k cs
    → d < length cs
    → code (get_or "0" (get_elem? cs d)) ≡ k + d
code-get_elem? k List.[] d up h = absurd (omega arith)
code-get_elem? k (List.◌∷◌ c cs) zero (e, up) h = ground (arith)
code-get_elem? k (List.◌∷◌ c cs) (suc d) (e, up) h = ground (arith, code-get_elem? (suc k) cs d up)

pub code-digit : (d : ℕ) → d < 10 → code (digit d) ≡ b'0' + d
unfolding digit
code-digit d h = code-get_elem? b'0' decimal_digits d (omega arith) h

pub is_digit-digit : (d : ℕ) → d < 10 → is_digit (digit d) ≡ true
unfolding is_digit
is_digit-digit d h = ground (arith, code-digit d h)

-- Reading the last digit after the digits before it gives the number.
scan_last : (n : ℕ) (out : String) → n ≤ max_u64 → scan (digit (n % 10) ∷ out) (n / 10) ≡ scan out n
unfolding scan is_digit
scan_last n out h = ground (arith, code-digit (n % 10) (omega arith))

pub scan-emit : (k n : ℕ) (out : String) → n ≤ k → n ≤ max_u64 → scan (emit k n out) 0 ≡ scan out n
unfolding emit
scan-emit zero n out le fits = ground arith
scan-emit (suc k) n out le fits =
    ground (arith, scan_last n out fits, scan-emit k (n / 10) (digit (n % 10) ∷ out))
