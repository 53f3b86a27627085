-- ===== src/Optional.antt =====
-- Chains of calls that return a value or an error, where the program only passes the error on.
use run_dsp.Prelude.{Option, none, some, Bool, true, false}

infixl 10 ◌>>=◌ ◌>>◌
abbrev pub ◌>>=◌ {ℓ κ} : {A : Type ℓ} {B : Type κ} → Option A → (A → Option B) → Option B
none >>= k = none
some a >>= k = k a

abbrev pub ◌>>◌ {ℓ κ} : {A : Type ℓ} {B : Type κ} → Option A → Option B → Option B
m >> k = m >>= λ _. k

-- An early return with an error unless the test holds.
abbrev pub guard : Bool → Option (Unit {0})
guard true = some tt
guard false = none
