-- ===== src/Exec.antt =====
-- Methods that change the value behind a pointer and may return an error or panic. What was written
-- before an error or a panic stays written, so the new value comes back beside each of them.

-- `ok`: a result with a nil error; `err`: a non-nil error; `panicked`: the goroutine unwinds.
pub data Outcome {ℓ κ} (E : Type ℓ) (A : Type κ) : Type (ℓ ⊔ κ) where
  ok : A → Outcome E A
  err : E → Outcome E A
  panicked : Outcome E A

abbrev pub Exec {ℓ} : Type ℓ → Type ℓ → Type ℓ → Type ℓ
Exec E S A = S → Outcome E A × S

module _ {ℓ} {E S A : Type ℓ} where
  abbrev pub pure : A → Exec E S A
  pure a s = (ok a, s)

  abbrev pub raise : E → Exec E S A
  raise e s = (err e, s)

  abbrev pub panic : Exec E S A
  panic s = (panicked, s)

  abbrev pub get : (S → A) → Exec E S A
  get f s = (ok (f s), s)

module _ {ℓ} {E S A B : Type ℓ} where
  abbrev pub resume : Outcome E A → (A → Exec E S B) → S → Outcome E B × S
  resume (ok a) k s = k a s
  resume (err e) k s = (err e, s)
  resume panicked k s = (panicked, s)

  infixl 10 ◌>>=◌ ◌>>◌
  abbrev pub ◌>>=◌ : Exec E S A → (A → Exec E S B) → Exec E S B
  ◌>>=◌ m k s = let (r, s') = m s in resume r k s'

  abbrev pub ◌>>◌ : Exec E S A → Exec E S B → Exec E S B
  m >> k = m >>= λ _. k

-- A statement that changes the value and returns nothing.
abbrev pub modify {ℓ} : {E S : Type ℓ} → (S → S) → Exec E S (Unit {ℓ})
modify f s = (ok tt, f s)

-- The method has not panicked.
abbrev pub Survives {ℓ κ} : {E : Type ℓ} {A : Type κ} → Outcome E A → Type 0
Survives (ok _) = Unit
Survives (err _) = Unit
Survives panicked = ⊥
