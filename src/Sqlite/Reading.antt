-- ===== src/Sqlite/Reading.antt =====
-- dsp/persistence/backends/sqlite/contract_saver.go: the row from which a negotiation is read for writing.
use run_dsp.Prelude.{
  ℕ, zero, suc, ◌≡◌, refl, sym, ap, ◌∙◌, true, Bool-cases, inl, inr, Option, none, some, List,
  nat_eq,
}
use run_dsp.Exec.{Outcome, ok, err, panicked}
use run_dsp.Extern.{Extern}
use run_dsp.Json.{Json}
use run_dsp.Contract.Model.{ContractRow}
use run_dsp.Contract.Negotiation.{Negotiation}
use run_dsp.Sqlite.Query.{Condition, Params, where_group}
use run_dsp.Sqlite.Database.{Database, IsDatabase, Scanned, no_rows, failed, row}
use run_dsp.Sqlite.Contracts.{
  Read, acquired, after_lock, acquire, acquire_free, if_unique, where_free, get_contract_locked,
}

-- The negotiation was made from a row of the database `d`, which has been locked since.
pub record From (x : Extern) (j : Json x) (db : Database) (d : db.Db) (cn : Negotiation x)
    (e : db.Db) : Type 0 where
  pub row : ContractRow
  pub before : ContractRow
  pub found : db.row_of d row.id ≡ some before
  pub same : row ≡ record before { locked = true; agreement = none }
  pub made : acquired x j db row e ≡ ok cn

abbrev pub Reads :
    (x : Extern) (j : Json x) (db : Database)
    → db.Db
    → Outcome (Unit {0}) (Negotiation x) × db.Db
    → Type 0
Reads x j db d (ok cn, e) = From x j db d cn e
Reads x j db d (err _, e) = Unit
Reads x j db d (panicked, e) = Unit

-- Others leave the rows of the negotiations alone.
abbrev pub Undisturbed : Database → Type 0
Undisturbed db = (d : db.Db) (id : ℕ) → db.row_of (db.sleep d) id ≡ db.row_of d id

module _ (x : Extern) (j : Json x) (db : Database) (sql : IsDatabase db)
    (undisturbed : Undisturbed db) where
  Reads-earlier :
      (d e : db.Db) (r : Read x j db)
      → ((id : ℕ) → db.row_of e id ≡ db.row_of d id)
      → Reads x j db e r
      → Reads x j db d r
  Reads-earlier d e (ok cn, f) s h = record {
    row = h.row;
    before = h.before;
    found = sym (s h.row.id) ∙ h.found;
    same = h.same;
    made = h.made;
  }
  Reads-earlier d e (err _, f) s h = tt
  Reads-earlier d e (panicked, f) s h = tt

  acquired-Reads :
      (d e : db.Db) (r before : ContractRow) (o : Outcome (Unit {0}) (Negotiation x))
      → db.row_of d r.id ≡ some before
      → r ≡ record before { locked = true; agreement = none }
      → acquired x j db r e ≡ o
      → Reads x j db d (o, e)
  acquired-Reads d e r before (ok cn) f s m = record {
    row = r;
    before = before;
    found = f;
    same = s;
    made = m;
  }
  acquired-Reads d e r before (err _) f s m = tt
  acquired-Reads d e r before panicked f s m = tt

  after_lock-Reads :
      (again : db.Db → Read x j db) (q : List Condition) (d : db.Db)
      (r : Scanned ContractRow × db.Db)
      → db.lock q d ≡ r
      → ((e : db.Db) → Reads x j db e (again e))
      → Reads x j db d (after_lock x j db again r)
  unfolding after_lock
  after_lock-Reads again q d (no_rows, e) h k =
      Reads-earlier d (db.sleep e) (again (db.sleep e))
        (λ id. undisturbed e id ∙ ap (λ f. db.row_of f id) (sql.lock-no_rows q d h))
        (k (db.sleep e))
  after_lock-Reads again q d (failed, e) h k = tt
  after_lock-Reads again q d (row r, e) h k =
      let t = sql.lock-row q d h in acquired-Reads d e r t.before _ t.found t.same refl

  acquire-Reads : (n : ℕ) (q : List Condition) (d : db.Db) → Reads x j db d (acquire x j db n q d)
  unfolding acquire
  acquire-Reads zero q d = tt
  acquire-Reads (suc n) q d = after_lock-Reads (acquire x j db n q) q d _ refl (acquire-Reads n q)

  acquire_free-Reads :
      (n : ℕ) (o : Option (List Condition)) (d : db.Db) → Reads x j db d (acquire_free x j db n o d)
  unfolding acquire_free
  acquire_free-Reads n none d = tt
  acquire_free-Reads n (some q) d = acquire-Reads n q d

  if_unique-Reads :
      (o : Option ℕ) (r : Read x j db) (d : db.Db)
      → Reads x j db d r
      → Reads x j db d (if_unique x j db o r d)
  unfolding if_unique
  if_unique-Reads none r d h = tt
  if_unique-Reads (some n) r d h = elim (Bool-cases (nat_eq n 1)) [
    | inl e ↦ rw e h
    | inr e ↦ rw e tt
  ]

  where_free-Reads :
      (n : ℕ) (p : Params x) (o : Option (List Condition)) (d : db.Db)
      → Reads x j db d (where_free x j db n p o d)
  unfolding where_free
  where_free-Reads n p none d = tt
  where_free-Reads n p (some q) d = if_unique-Reads (db.count q d) _ d (acquire_free-Reads n _ d)

  pub get_contract_locked-Reads :
      (n : ℕ) (p : Params x) (d : db.Db) (r : Read x j db)
      → get_contract_locked x j db n p d ≡ r
      → Reads x j db d r
  unfolding get_contract_locked
  get_contract_locked-Reads n p d r h = rw⁻¹ h (where_free-Reads n p (where_group x p none) d)
