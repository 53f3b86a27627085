-- ===== src/Sqlite/Locking.antt =====
-- dsp/persistence/backends/sqlite/contract_saver.go: who holds the lock of a negotiation.
use run_dsp.Prelude.{
  ℕ, zero, suc, ◌<◌, String, ◌≡◌, ◌≢◌, refl, ap, ◌∙◌, Bool, true, false, Option, none, some, List,
  ◌∷◌, arith, nat_eq, Bool-cases, inl, inr,
}
use run_dsp.Exec.{Outcome, ok, err, panicked}
use run_dsp.Extern.{Extern}
use run_dsp.Json.{Json}
use run_dsp.Contract.Model.{ContractRow, AgreementRow, from_model}
use run_dsp.Contract.Negotiation.{Negotiation}
use run_dsp.Sqlite.Query.{Condition, is_locked, Params, where_group}
use run_dsp.Sqlite.Database.{Database, IsDatabase, Locked, Scanned, no_rows, failed, row, all_hold}
use run_dsp.Sqlite.Contracts.{
  Read, of_option, joined, with_agreement, acquired, after_lock, acquire, acquire_free, if_unique,
  where_free, get_contract_locked,
}

module _ (x : Extern) (j : Json x) where
  pub from_model-fields :
      (r : ContractRow) (ro : Bool) {cn : Negotiation x}
      → from_model x j r ro ≡ some cn
      → (cn.internal_id ≡ r.id) × (cn.ro ≡ ro) × (cn.locked ≡ r.locked)
  unfolding from_model
  from_model-fields r ro h = ground arith

  pub some-of_option :
      (o : Option (Negotiation x)) {cn : Negotiation x} → of_option o ≡ ok cn → o ≡ some cn
  some-of_option none h = cc
  some-of_option (some cn) h = cc

  module _ (db : Database) where
    joined-fields :
        (r : ContractRow) (o : Option AgreementRow) {cn : Negotiation x}
        → joined x j db r o ≡ ok cn
        → (cn.internal_id ≡ r.id) × (cn.ro ≡ false) × (cn.locked ≡ r.locked)
    unfolding joined
    joined-fields r none h = cc
    joined-fields r (some a) h =
        from_model-fields (record r { agreement = some a }) false (some-of_option _ h)

    pub with_agreement-fields :
        (r : ContractRow) (id : Option String) (d : db.Db) {cn : Negotiation x}
        → with_agreement x j db r id d ≡ ok cn
        → (cn.internal_id ≡ r.id) × (cn.ro ≡ false) × (cn.locked ≡ r.locked)
    unfolding with_agreement
    with_agreement-fields r none d h = from_model-fields r false (some-of_option _ h)
    with_agreement-fields r (some id) d h = joined-fields r (db.select_agreement id d) h

  -- `GetWhereGroup` puts the test of the lock first.
  pub where_group-free :
      (p : Params x) {q : List Condition}
      → where_group x p none ≡ some q
      → where_group x p (some false) ≡ some (is_locked false ∷ q)
  unfolding where_group
  where_group-free p h = ground arith

-- The database after some seconds, in which others may change it.
abbrev pub after : (db : Database) → (seconds : ℕ) → db.Db → db.Db
after db zero d = d
after db (suc n) d = after db n (db.sleep d)

-- The negotiation was read from a row that was free after some seconds of waiting, fewer than there are
-- attempts, and is locked now.
pub record Acquired (x : Extern) (db : Database) (attempts : ℕ) (d : db.Db) (cn : Negotiation x)
    (e : db.Db) : Type 0 where
  pub waited : ℕ
  pub in_time : waited < attempts
  pub before : ContractRow
  pub found : db.row_of (after db waited d) cn.internal_id ≡ some before
  pub was_free : before.locked ≡ false
  pub taken : db.row_of e cn.internal_id ≡ some (record before { locked = true; agreement = none })
  pub writable : cn.ro ≡ false

abbrev pub Acquires :
    (x : Extern) (db : Database)
    → (attempts : ℕ) → db.Db
    → Outcome (Unit {0}) (Negotiation x) × db.Db
    → Type 0
Acquires x db n d (ok cn, e) = Acquired x db n d cn e
Acquires x db n d (err _, e) = Unit
Acquires x db n d (panicked, e) = Unit

-- Every row that the query is about is locked.
pub record AllLocked (db : Database) (q : List Condition) (d : db.Db) : Type 0 where
  pub locked :
      (id : ℕ) {r : ContractRow} → db.row_of d id ≡ some r → all_hold q r ≡ true → r.locked ≡ true

pub of_some : {A : Type 0} {a b : A} → some a ≡ some b → a ≡ b
of_some h = cc

module _ (x : Extern) (j : Json x) (db : Database) (sql : IsDatabase db) where
  -- A second of waiting, and one attempt, are added in front.
  wait-Acquires :
      (n : ℕ) (d : db.Db) (r : Read x j db)
      → Acquires x db n (db.sleep d) r
      → Acquires x db (suc n) d r
  wait-Acquires n d (ok cn, e) h = record {
    waited = suc h.waited;
    in_time = omega (arith, h.in_time);
    before = h.before;
    found = h.found;
    was_free = h.was_free;
    taken = h.taken;
    writable = h.writable;
  }
  wait-Acquires n d (err _, e) h = tt
  wait-Acquires n d (panicked, e) h = tt

  acquired-Acquired :
      (n : ℕ) (q : List Condition) (d : db.Db) (r : ContractRow) (e : db.Db) {cn : Negotiation x}
      → Locked db (is_locked false ∷ q) d r e
      → acquired x j db r e ≡ ok cn
      → Acquired x db (suc n) d cn e
  acquired-Acquired n q d r e {cn = cn} t h =
      let (i, w, _) = with_agreement-fields x j db r r.agreement_id e h in
      record {
        waited = 0;
        in_time = omega arith;
        before = t.before;
        found = ap (db.row_of d) i ∙ t.found;
        was_free = ground (arith, t.met);
        taken = ap (db.row_of e) i ∙ t.kept ∙ ap some t.same;
        writable = w;
      }

  row-Acquires :
      (n : ℕ) (q : List Condition) (d : db.Db) (r : ContractRow) (e : db.Db)
      (o : Outcome (Unit {0}) (Negotiation x))
      → Locked db (is_locked false ∷ q) d r e
      → acquired x j db r e ≡ o
      → Acquires x db (suc n) d (o, e)
  row-Acquires n q d r e (ok cn) t h = acquired-Acquired n q d r e t h
  row-Acquires n q d r e (err _) t h = tt
  row-Acquires n q d r e panicked t h = tt

  after_lock-Acquires :
      (n : ℕ) (q : List Condition) (again : db.Db → Read x j db) (d : db.Db)
      (r : Scanned ContractRow × db.Db)
      → db.lock (is_locked false ∷ q) d ≡ r
      → ((e : db.Db) → Acquires x db n e (again e))
      → Acquires x db (suc n) d (after_lock x j db again r)
  unfolding after_lock
  after_lock-Acquires n q again d (no_rows, e) h k =
      rw (sql.lock-no_rows (is_locked false ∷ q) d h)
        (wait-Acquires n d (again (db.sleep d)) (k (db.sleep d)))
  after_lock-Acquires n q again d (failed, e) h k = tt
  after_lock-Acquires n q again d (row r, e) h k =
      row-Acquires n q d r e _ (sql.lock-row (is_locked false ∷ q) d h) refl

  acquire-Acquires :
      (n : ℕ) (q : List Condition) (d : db.Db)
      → Acquires x db n d (acquire x j db n (is_locked false ∷ q) d)
  unfolding acquire
  acquire-Acquires zero q d = tt
  acquire-Acquires (suc n) q d = after_lock-Acquires n q _ d _ refl (acquire-Acquires n q)

  acquire_free-Acquires :
      (n : ℕ) (o : Option (List Condition)) (d : db.Db) {q : List Condition}
      → o ≡ some (is_locked false ∷ q)
      → Acquires x db n d (acquire_free x j db n o d)
  unfolding acquire_free
  acquire_free-Acquires n none d h = tt
  acquire_free-Acquires n (some f) d {q = q} h = rw (of_some h) (acquire-Acquires n q d)

  if_unique-Acquires :
      (n : ℕ) (o : Option ℕ) (r : Read x j db) (d : db.Db)
      → Acquires x db n d r
      → Acquires x db n d (if_unique x j db o r d)
  unfolding if_unique
  if_unique-Acquires n none r d h = tt
  if_unique-Acquires n (some k) r d h = elim (Bool-cases (nat_eq k 1)) [
    | inl e ↦ rw e h
    | inr e ↦ rw e tt
  ]

  where_free-Acquires :
      (n : ℕ) (p : Params x) (o : Option (List Condition)) (d : db.Db)
      → where_group x p none ≡ o
      → Acquires x db n d (where_free x j db n p o d)
  unfolding where_free
  where_free-Acquires n p none d h = tt
  where_free-Acquires n p (some q) d h =
      if_unique-Acquires n (db.count q d) _ d
        (acquire_free-Acquires n _ d (where_group-free x j p h))

  -- Whatever others do meanwhile: a negotiation that is read for writing was, after a number of seconds of
  -- waiting that is below the number of attempts, in a row that was not locked; it is in the same row, now
  -- locked, after the reading; and the record that is returned is writable.
  pub get_contract_locked-Acquires :
      (lock_timeout : ℕ) (p : Params x) (d : db.Db)
      → Acquires x db lock_timeout d (get_contract_locked x j db lock_timeout p d)
  unfolding get_contract_locked
  get_contract_locked-Acquires n p d = where_free-Acquires n p (where_group x p none) d refl

  lock-AllLocked :
      (q : List Condition) (d : db.Db) {r : ContractRow} {e : db.Db}
      → AllLocked db q d
      → db.lock (is_locked false ∷ q) d ≢ (row r, e)
  lock-AllLocked q d {r = r} {e = e} a h =
      let t = sql.lock-row (is_locked false ∷ q) d h in ground (arith, t.met, a.locked r.id t.found)

  after_lock-AllLocked :
      (again : db.Db → Read x j db) (q : List Condition) (d : db.Db)
      (r : Scanned ContractRow × db.Db)
      → db.lock (is_locked false ∷ q) d ≡ r
      → AllLocked db q d
      → db.sleep d ≡ d
      → again d ≡ (err tt, d)
      → after_lock x j db again r ≡ (err tt, d)
  unfolding after_lock
  after_lock-AllLocked again q d (no_rows, e) h a s k =
      ap (λ f. again (db.sleep f)) (sql.lock-no_rows (is_locked false ∷ q) d h) ∙ ap again s ∙ k
  after_lock-AllLocked again q d (failed, e) h a s k =
      ap (λ f. (err tt, f)) (sql.lock-failed (is_locked false ∷ q) d h)
  after_lock-AllLocked again q d (row r, e) h a s k = absurd (lock-AllLocked q d a h)

  acquire-AllLocked :
      (n : ℕ) (q : List Condition) (d : db.Db)
      → AllLocked db q d
      → db.sleep d ≡ d
      → acquire x j db n (is_locked false ∷ q) d ≡ (err tt, d)
  unfolding acquire
  acquire-AllLocked zero q d a s = refl
  acquire-AllLocked (suc n) q d a s =
      after_lock-AllLocked (acquire x j db n (is_locked false ∷ q)) q d _ refl a s
        (acquire-AllLocked n q d a s)

  if_unique-refused :
      (o : Option ℕ) (r : Read x j db) (d : db.Db)
      → r ≡ (err tt, d)
      → if_unique x j db o r d ≡ (err tt, d)
  unfolding if_unique
  if_unique-refused none r d h = refl
  if_unique-refused (some n) r d h = elim (Bool-cases (nat_eq n 1)) [
    | inl e ↦ rw e h
    | inr e ↦ rw (e)
  ]

  -- While every row is locked that a query is about, which does not ask for an undefined role,
  -- and nobody else changes the database, a reading for writing returns an error, after however
  -- many attempts, and leaves the database as it was.
  pub get_contract_locked-AllLocked :
      (lock_timeout : ℕ) (p : Params x) (d : db.Db) {q : List Condition}
      → where_group x p none ≡ some q
      → AllLocked db q d
      → db.sleep d ≡ d
      → get_contract_locked x j db lock_timeout p d ≡ (err tt, d)
  unfolding get_contract_locked where_free acquire_free
  get_contract_locked-AllLocked n p d {q = q} w a s =
      rw (w, where_group-free x j p w)
        (if_unique-refused (db.count q d) _ d (acquire-AllLocked n q d a s))
