-- ===== src/Examples/World.antt =====
-- An instance of the external code that meets its laws: a UUID is a number, written in unary; a URL is
-- a text behind one character of a scheme; times and untyped values carry nothing.
use Prim.Native.Char.{code}
use Prim.Native.String.{[], ◌∷◌}
use mathlib.Core.Option
use run_dsp.Prelude.{
  ℕ, zero, suc, String, ◌≡◌, ◌↔◌, refl, true, false, Option, none, some, arith, nat_eq,
  if◌then◌else◌,
}
use run_dsp.Extern.{Extern, IsLawful}

unfoldable pub unary : ℕ → String
unary zero = []
unary (suc n) = "x" ∷ unary n

unfoldable pub read_unary : String → Option ℕ
read_unary [] = some 0
read_unary (c ∷ s) = if nat_eq (code c) b'x' then Option.map suc (read_unary s) else none

read_unary-unary : (n : ℕ) → read_unary (unary n) ≡ some n
unfolding read_unary unary
read_unary-unary zero = refl
read_unary-unary (suc n) = rw (read_unary-unary n)

abbrev pub read_url : String → Option String
read_url [] = none
read_url (c ∷ s) = some s

abbrev pub write_url : String → String
write_url s = "/" ∷ s

abbrev pub world : Extern
world = record {
  Uuid = ℕ;
  eq_uuid = nat_eq;
  nil_uuid = 0;
  urn = unary;
  uuid_string = unary;
  parse_uuid = read_unary;
  to_lower = λ s. s;
  Url = String;
  parse_url = read_url;
  url_string = write_url;
  join_path = λ u p. u;
  Time = Unit;
  Any = Unit;
  RequesterInfo = String;
  external_id = λ i. i;
  identifier = λ i. i;
  is_unauthenticated = λ i. false;
  is_local_origin = λ i. true;
  is_continuation = λ i. false;
  local_origin = λ e. e;
}

nat_eq_iff : (m n : ℕ) → (nat_eq m n ≡ true) ↔ (m ≡ n)
nat_eq_iff m n = (λ h. ground arith, λ h. ground arith)

pub world-IsLawful : IsLawful world
world-IsLawful = record {
  eq_uuid_iff = nat_eq_iff;
  parse-urn = read_unary-unary;
  parse-string = read_unary-unary;
  lower-urn = λ u. refl;
  parse-url_string = λ v. refl;
  is_local_origin-local_origin = λ e. refl;
}
