-- ===== src/Oid/Arcs.antt =====
-- What an identifier read by `Parse` holds.
use Prim.Native.Char.{Char, code}
use Prim.Native.Nat.{◌^◌}
use Prim.Native.String.{[], ◌∷◌}
use run_dsp.Prelude.{
  ℤ, pos, negsuc, ℕ, ◌<◌, String, ◌≡◌, true, Bool-cases, Option, none, some, List, arith, inl, inr,
  nat_eq,
}
use run_dsp.Extern.{Extern}
use run_dsp.Oid.{
  Oid, parse, parse_lower, strip_urn, valid_oid, split_dots, parse_arcs, cons_arc, push_front,
  class_then_digit, classes_then_digit, in_class,
}
use run_dsp.Oid.Decimal.{parse_int, positive, parse_uint, is_digit}

-- The text holds digits and dots only, so no part of it has a sign.
abbrev pub IsUnsigned : String → Type 0
IsUnsigned [] = Unit
IsUnsigned (c ∷ s) = (in_class c ≡ true) × IsUnsigned s

abbrev pub AllUnsigned : List String → Type 0
AllUnsigned List.[] = Unit
AllUnsigned (List.◌∷◌ t ts) = IsUnsigned t × AllUnsigned ts

-- An arc that is not negative and fits an int64.
abbrev pub IsArc : ℤ → Type 0
IsArc (pos n) = n < 2 ^ 63
IsArc (negsuc n) = ⊥

abbrev pub AllArcs : Oid → Type 0
AllArcs List.[] = Unit
AllArcs (List.◌∷◌ n ns) = IsArc n × AllArcs ns

positive-IsArc : (o : Option ℕ) (n : ℤ) → positive o ≡ some n → IsArc n
unfolding positive
positive-IsArc none n h = cc
positive-IsArc (some k) (pos n) h = ground arith
positive-IsArc (some k) (negsuc n) h = ground arith

parse_int-IsArc : (t : String) (n : ℤ) → IsUnsigned t → parse_int t ≡ some n → IsArc n
unfolding parse_int in_class is_digit
parse_int-IsArc [] n u h = cc
parse_int-IsArc (c ∷ s) n (uc, us) h = positive-IsArc (parse_uint (c ∷ s)) n (ground arith)

cons_arc-AllArcs :
    (a : Option ℤ) (rest : Option Oid) (o : Oid)
    → ((n : ℤ) → a ≡ some n → IsArc n)
    → ((ns : Oid) → rest ≡ some ns → AllArcs ns)
    → cons_arc a rest ≡ some o
    → AllArcs o
unfolding cons_arc
cons_arc-AllArcs none rest o ha hr h = cc
cons_arc-AllArcs (some n) none o ha hr h = cc
cons_arc-AllArcs (some n) (some ns) List.[] ha hr h = tt
cons_arc-AllArcs (some n) (some ns) (List.◌∷◌ m ms) ha hr h = (ha m (cc), hr ms (cc))

parse_arcs-AllArcs :
    (ts : List String) (o : Oid) → AllUnsigned ts → parse_arcs ts ≡ some o → AllArcs o
unfolding parse_arcs
parse_arcs-AllArcs List.[] List.[] u h = tt
parse_arcs-AllArcs List.[] (List.◌∷◌ n ns) u h = cc
parse_arcs-AllArcs (List.◌∷◌ t ts) o (ut, us) h =
    cons_arc-AllArcs (parse_int t) (parse_arcs ts) o (λ n. parse_int-IsArc t n ut)
      (λ ns. parse_arcs-AllArcs ts ns us) h

push_front-AllUnsigned :
    (c : Char) (ts : List String)
    → in_class c ≡ true
    → AllUnsigned ts
    → AllUnsigned (push_front c ts)
unfolding push_front
push_front-AllUnsigned c List.[] h u = ((h, tt), tt)
push_front-AllUnsigned c (List.◌∷◌ t ts) h (ut, us) = ((h, ut), us)

split_dots-AllUnsigned : (s : String) → IsUnsigned s → AllUnsigned (split_dots s)
unfolding split_dots
split_dots-AllUnsigned [] u = (tt, tt)
split_dots-AllUnsigned (c ∷ s) (uc, us) = elim (Bool-cases (nat_eq (code c) b'.')) [
  | inl e ↦ rw (e) (tt, split_dots-AllUnsigned s us)
  | inr e ↦ rw (e) (push_front-AllUnsigned c (split_dots s) uc (split_dots-AllUnsigned s us))
]

class_then_digit-IsUnsigned : (s : String) → class_then_digit s ≡ true → IsUnsigned s
unfolding class_then_digit in_class
class_then_digit-IsUnsigned [] h = tt
class_then_digit-IsUnsigned (c ∷ []) h = (ground (arith), tt)
class_then_digit-IsUnsigned (c ∷ (d ∷ s)) h =
    (ground (arith), class_then_digit-IsUnsigned (d ∷ s) (ground (arith)))

pub valid_oid-IsUnsigned : (s : String) → valid_oid s ≡ true → IsUnsigned s
unfolding valid_oid classes_then_digit in_class
valid_oid-IsUnsigned [] h = cc
valid_oid-IsUnsigned (c ∷ []) h = ground (arith)
valid_oid-IsUnsigned (c ∷ (d ∷ s)) h =
    (ground (arith), (ground (arith), class_then_digit-IsUnsigned s (ground (arith))))

parse_lower-AllArcs : (s : String) (o : Oid) → parse_lower s ≡ some o → AllArcs o
unfolding parse_lower
parse_lower-AllArcs s o h = elim (Bool-cases (valid_oid (strip_urn s))) [
  | inl e ↦
      parse_arcs-AllArcs (split_dots (strip_urn s)) o
        (split_dots-AllUnsigned (strip_urn s) (valid_oid-IsUnsigned (strip_urn s) e))
        (ground (arith))
  | inr e ↦ absurd (ground (arith))
]

-- Every arc of an identifier that `Parse` returns is at least 0 and less than 2 ^ 63.
pub parse-AllArcs : (x : Extern) (s : String) (o : Oid) → parse x s ≡ some o → AllArcs o
unfolding parse
parse-AllArcs x [] o h = cc
parse-AllArcs x (c ∷ s) o h = parse_lower-AllArcs (x.to_lower (c ∷ s)) o h
