-- ===== src/Examples/AgreementText.antt =====
-- A codec for the agreements whose policy has nothing but an ID: the text is the target, so that the ID
-- of the policy is lost.
use run_dsp.Prelude.{
  String, ◌≡◌, refl, Bool, true, false, ◌&&◌, Option, none, some, List, [], ◌∷◌, arith, str_eq,
  eq_iff, Bool-cases, inl, inr, if◌then◌else◌,
}
use run_dsp.Odrl.{Agreement, no_policy}
use run_dsp.Examples.World.{world, read_url, write_url}

unfoldable pub is_nil : {A : Type 0} → List A → Bool
is_nil [] = true
is_nil (_ ∷ _) = false

unfoldable pub agreement_on : String → Agreement world
agreement_on t = record {
  policy = no_policy world;
  type = "odrl:Agreement";
  id = "xxx";
  target = t;
  timestamp = tt;
}

-- The agreement that the examples store, which has an ID in its policy too.
abbrev pub signed : Agreement world
signed = record {
  policy = record (no_policy world) { id = "policy" };
  type = "odrl:Agreement";
  id = "xxx";
  target = "urn:uuid:7";
  timestamp = tt;
}

unfoldable pub is_agreement : Agreement world → Bool
unfolding is_nil
is_agreement a =
    str_eq a.type "odrl:Agreement"
    && str_eq a.id "xxx"
    && str_eq a.policy.rule.assigner ""
    && str_eq a.policy.rule.assignee ""
    && str_eq a.policy.provider_id ""
    && is_nil a.policy.profile
    && is_nil a.policy.permission
    && is_nil a.policy.obligation
    && is_nil a.policy.prohibition

is_agreement_iff :
    (a : Agreement world)
    → is_agreement a ≡ true
    → record a { policy = record a.policy { id = "" }; timestamp = tt } ≡ agreement_on a.target
unfolding is_agreement agreement_on is_nil
is_agreement_iff a h = ground (
  arith,
  eq_iff a.type "odrl:Agreement",
  eq_iff a.id "xxx",
  eq_iff a.policy.rule.assigner "",
  eq_iff a.policy.rule.assignee "",
  eq_iff a.policy.provider_id "",
)

unfoldable pub write_agreement : Agreement world → Option String
unfolding is_agreement
write_agreement a = if is_agreement a then some (write_url a.target) else none

unfoldable pub read_agreement : String → Option (Agreement world)
unfolding agreement_on
read_agreement s = elim (read_url s) [ none ↦ none | some t ↦ some (agreement_on t) ]

write_agreement-at :
    (a : Agreement world) (b : Bool)
    → is_agreement a ≡ b
    → write_agreement a ≡ (if b then some (write_url a.target) else none)
unfolding write_agreement
write_agreement-at a b e = rw (e)

read_agreement-write_url : (t : String) → read_agreement (write_url t) ≡ some (agreement_on t)
unfolding read_agreement
read_agreement-write_url t = refl

pub read_agreement-write_agreement :
    (a : Agreement world) (s : String)
    → write_agreement a ≡ some s
    → read_agreement s ≡ some (record a { policy = record a.policy { id = "" }; timestamp = tt })
read_agreement-write_agreement a s h = elim (Bool-cases (is_agreement a)) [
  | inl e ↦
      cc (h, write_agreement-at a true e, read_agreement-write_url a.target, is_agreement_iff a e)
  | inr e ↦ cc (h, write_agreement-at a false e)
]
