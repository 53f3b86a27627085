-- ===== src/Contract/Paths.antt =====
-- What the transition table of dsp/contract/negotiation.go allows: the states that a negotiation can
-- pass through, over any number of accepted changes.
use run_dsp.Prelude.{ℕ, ◌≤◌, ◌<◌, ◌≡◌, ◌⊎◌, inl, inr, refl, true, List, [], ◌∷◌, ◌++◌, ap, arith}
use run_dsp.Contract.State.{
  State, initial, requested, offered, agreed, accepted, verified, finalized, terminated,
  valid_transitions, contains,
}

-- `validTransitions` allows the change.
abbrev pub Allows : State → State → Type 0
Allows s t = contains t (valid_transitions s) ≡ true

-- `Walk s ts t`: from `s`, the changes to the states `ts` in turn are allowed, and end in `t`.
pub data Walk : State → List State → State → Type 0 where
  stay : {s : State} → Walk s [] s
  go : {s t u : State} {ts : List State} → Allows s t → Walk t ts u → Walk s (t ∷ ts) u

-- How far a negotiation has come.
abbrev pub stage : State → ℕ
stage initial = 0
stage requested = 1
stage offered = 1
stage accepted = 2
stage agreed = 3
stage verified = 4
stage finalized = 5
stage terminated = 6

-- A final state allows nothing.
Walk-from_final : {s u : State} {ts : List State} → Walk s ts u → 5 ≤ stage s → ts ≡ []
Walk-from_final stay h = refl
Walk-from_final (go {s = s} {t = t} a w) h = absurd (after_final s t a h)
  where
    after_final : (s t : State) → Allows s t → 5 ≤ stage s → ⊥
    after_final s t a h = ground arith

next_of_verified : (s t : State) → Allows s t → s ≡ verified → (t ≡ finalized) ⊎ (t ≡ terminated)
next_of_verified s t a h = ground arith

next_of_agreed : (s t : State) → Allows s t → s ≡ agreed → (t ≡ verified) ⊎ (t ≡ terminated)
next_of_agreed s t a h = ground arith

Walk-from_terminated :
    {s u : State} {ts : List State} → Walk s ts u → s ≡ terminated → u ≡ terminated
Walk-from_terminated stay h = h
Walk-from_terminated (go {s = s} {t = t} a w) h = ground (arith, a)

Walk-from_verified :
    {s u : State} {ts : List State}
    → Walk s ts u
    → s ≡ verified
    → u ≡ finalized
    → ts ≡ finalized ∷ []
Walk-from_verified stay h f = cc
Walk-from_verified (go {s = s} {t = t} a w) h f = elim (next_of_verified s t a h) [
  | inl e ↦ cc (e, Walk-from_final w (rw e (omega arith)))
  | inr e ↦ cc (Walk-from_terminated w e)
]

Walk-from_agreed :
    {s u : State} {ts : List State}
    → Walk s ts u
    → s ≡ agreed
    → u ≡ finalized
    → ts ≡ verified ∷ finalized ∷ []
Walk-from_agreed stay h f = cc
Walk-from_agreed (go {s = s} {t = t} a w) h f = elim (next_of_agreed s t a h) [
  | inl e ↦ cc (e, Walk-from_verified w e f)
  | inr e ↦ cc (Walk-from_terminated w e)
]

-- What follows a state before the agreement, towards the end.
next_before_agreed :
    (s t : State) → Allows s t → stage s < 3 → (stage t < 3) ⊎ (t ≡ agreed) ⊎ (t ≡ terminated)
next_before_agreed s t a h = ground arith

pub Walk-to_finalized :
    {s u : State} {ts : List State}
    → Walk s ts u
    → stage s < 3
    → u ≡ finalized
    → (pre : List State) × (ts ≡ pre ++ agreed ∷ verified ∷ finalized ∷ [])
Walk-to_finalized stay h f = absurd (ground arith)
Walk-to_finalized (go {s = s} {t = t} a w) h f = elim (next_before_agreed s t a h) [
  | inl l ↦ let (pre, e) = Walk-to_finalized w l f in (t ∷ pre, ap (λ r. t ∷ r) e)
  | inr (inl e) ↦ ([], cc (e, Walk-from_agreed w e f))
  | inr (inr e) ↦ cc (Walk-from_terminated w e)
]
