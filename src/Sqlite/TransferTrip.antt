-- ===== src/Sqlite/TransferTrip.antt =====
-- dsp/persistence/backends/sqlite/transfer_saver.go: a transfer that is stored and then read for writing.
use mathlib.Core.Path.{subst}
use run_dsp.Prelude.{
  ℕ, zero, suc, String, ◌≡◌, refl, sym, ap, ◌∙◌, Bool, true, false, Bool-cases, inl, inr, Option,
  none, some, List, arith, nat_eq, if◌then◌else◌,
}
use run_dsp.Exec.{Outcome, ok, err, panicked}
use run_dsp.Extern.{Extern, IsLawful}
use run_dsp.Json.{Json, IsJson}
use run_dsp.Role.{role_string}
use run_dsp.Contract.Model.{AgreementRow}
use run_dsp.Transfer.Model.{TransferRow, no_agreement, from_model, to_model, columns}
use run_dsp.Transfer.Request.{Request}
use run_dsp.Transfer.RoundTrip.{transfer_model_round_trip, to_model-Written}
use run_dsp.Sqlite.Contracts.{of_option}
use run_dsp.Sqlite.Database.{Scanned, no_rows, failed, row}
use run_dsp.Sqlite.TransferQuery.{Condition, Params, where_group}
use run_dsp.Sqlite.TransferTable.{Table, IsTable}
use run_dsp.Sqlite.Transfers.{
  Read, Done, joined, acquired, after_lock, acquire, acquire_free, if_unique, where_free,
  get_transfer_locked, executed, put_row, release_transfer, put_transfer,
}

-- What a transfer is when it is read for writing.
abbrev pub as_read : {x : Extern} → Request x → Request x
as_read tr = record tr { modified = false; ro = false; locked = true }

-- The transfer was made from a row of the database `d`, which has been locked since.
pub record From (x : Extern) (j : Json x) (db : Table) (d : db.Db) (tr : Request x) (e : db.Db)
    : Type 0 where
  pub row : TransferRow
  pub before : TransferRow
  pub found : db.row_of d row.id ≡ some before
  pub same : row ≡ record before { locked = true; agreement = no_agreement }
  pub made : acquired x j db row e ≡ ok tr

abbrev Reads :
    (x : Extern) (j : Json x) (db : Table) → db.Db → Outcome (Unit {0}) (Request x) × db.Db → Type 0
Reads x j db d (ok tr, e) = From x j db d tr e
Reads x j db d (err _, e) = Unit
Reads x j db d (panicked, e) = Unit

some_inj : {A : Type 0} {a b : A} → some a ≡ some b → a ≡ b
some_inj h = cc

ok_inj : {E A : Type 0} {a b : A} → ◌≡◌ {A = Outcome E A} (ok a) (ok b) → a ≡ b
ok_inj h = cc

of_option-some : {A : Type 0} (o : Option A) {a : A} → of_option o ≡ ok a → o ≡ some a
of_option-some none h = cc
of_option-some (some b) h = cc

-- Others leave the rows of the transfers alone.
abbrev pub LeavesRows : Table → Type 0
LeavesRows db = (d : db.Db) (id : ℕ) → db.row_of (db.sleep d) id ≡ db.row_of d id

module _ (x : Extern) (j : Json x) (db : Table) (sql : IsTable db) (leaves : LeavesRows db) where
  earlier-Reads :
      (d e : db.Db) (r : Read x j db)
      → ((id : ℕ) → db.row_of e id ≡ db.row_of d id)
      → Reads x j db e r
      → Reads x j db d r
  earlier-Reads d e (ok tr, f) s h = record {
    row = h.row;
    before = h.before;
    found = sym (s h.row.id) ∙ h.found;
    same = h.same;
    made = h.made;
  }
  earlier-Reads d e (err _, f) s h = tt
  earlier-Reads d e (panicked, f) s h = tt

  acquired-Reads :
      (d e : db.Db) (r before : TransferRow) (o : Outcome (Unit {0}) (Request x))
      → db.row_of d r.id ≡ some before
      → r ≡ record before { locked = true; agreement = no_agreement }
      → acquired x j db r e ≡ o
      → Reads x j db d (o, e)
  acquired-Reads d e r before (ok tr) f s m = record {
    row = r;
    before = before;
    found = f;
    same = s;
    made = m;
  }
  acquired-Reads d e r before (err _) f s m = tt
  acquired-Reads d e r before panicked f s m = tt

  after_lock-Reads :
      (again : db.Db → Read x j db) (q : List Condition) (d : db.Db)
      (r : Scanned TransferRow × db.Db)
      → db.lock q d ≡ r
      → ((e : db.Db) → Reads x j db e (again e))
      → Reads x j db d (after_lock x j db again r)
  unfolding after_lock
  after_lock-Reads again q d (no_rows, e) h k =
      earlier-Reads d (db.sleep e) (again (db.sleep e))
        (λ id. leaves e id ∙ ap (λ f. db.row_of f id) (sql.lock-no_rows q d h)) (k (db.sleep e))
  after_lock-Reads again q d (failed, e) h k = tt
  after_lock-Reads again q d (row r, e) h k =
      let (before, found, same) = sql.lock-row q d h in
      acquired-Reads d e r before _ found same refl

  acquire-Reads : (n : ℕ) (q : List Condition) (d : db.Db) → Reads x j db d (acquire x j db n q d)
  unfolding acquire
  acquire-Reads zero q d = tt
  acquire-Reads (suc n) q d = after_lock-Reads (acquire x j db n q) q d _ refl (acquire-Reads n q)

  acquire_free-Reads :
      (n : ℕ) (o : Option (List Condition)) (d : db.Db) → Reads x j db d (acquire_free x j db n o d)
  unfolding acquire_free
  acquire_free-Reads n none d = tt
  acquire_free-Reads n (some q) d = acquire-Reads n q d

  if_unique-Reads :
      (o : Option ℕ) (r : Read x j db) (d : db.Db)
      → Reads x j db d r
      → Reads x j db d (if_unique x j db o r d)
  unfolding if_unique
  if_unique-Reads none r d h = tt
  if_unique-Reads (some n) r d h = elim (Bool-cases (nat_eq n 1)) [
    | inl e ↦ rw e h
    | inr e ↦ rw e tt
  ]

  where_free-Reads :
      (n : ℕ) (p : Params x) (o : Option (List Condition)) (d : db.Db)
      → Reads x j db d (where_free x j db n p o d)
  unfolding where_free
  where_free-Reads n p none d = tt
  where_free-Reads n p (some q) d = if_unique-Reads (db.count q d) _ d (acquire_free-Reads n _ d)

  get_transfer_locked-Reads :
      (n : ℕ) (p : Params x) (d : db.Db) (r : Read x j db)
      → get_transfer_locked x j db n p d ≡ r
      → Reads x j db d r
  unfolding get_transfer_locked
  get_transfer_locked-Reads n p d r h = rw⁻¹ h (where_free-Reads n p (where_group x p none) d)

  -- What a successful write leaves in the row.
  record Wrote (tr : Request x) (role : String) (e : db.Db) : Type 0 where
    pub row : TransferRow
    pub model : to_model x j tr ≡ ok row
    pub kept : db.row_of e row.id ≡ some (record row { role = role; agreement = no_agreement })

  executed-true : (r : Bool × db.Db) {e : db.Db} → executed x j db r ≡ (ok tt, e) → r ≡ (true, e)
  unfolding executed
  executed-true (true, d) h = cc
  executed-true (false, d) h = cc

  from_model-parts :
      (r : TransferRow) (ro : Bool) {tr : Request x}
      → from_model x j r ro ≡ some tr
      → (tr.internal_id ≡ r.id)
        × (from_model x j (record r { locked = true }) ro ≡ some (record tr { locked = true }))
  unfolding from_model
  from_model-parts r ro h = ground arith

  -- The transfer of a row that was locked has the row's id.
  joined-id :
      (r : TransferRow) (o : Option AgreementRow) {tr : Request x}
      → joined x j db r o ≡ ok tr
      → tr.internal_id ≡ r.id
  unfolding joined
  joined-id r none h = cc
  joined-id r (some g) h =
      (from_model-parts (record r { agreement = g }) false (of_option-some _ h)).0

module _ (x : Extern) (law : IsLawful x) (j : Json x) (codec : IsJson x j) (db : Table)
    (sql : IsTable db) (leaves : LeavesRows db) where
  -- Of the columns, those that the table is searched by.
  columns-ids : (tr : Request x) (r : TransferRow) → to_model x j tr ≡ ok r → r.id ≡ tr.internal_id
  unfolding columns
  columns-ids tr r h = ap (λ s. s.id) (to_model-Written x law j codec tr r h).rest

  put_row-Wrote :
      (tr : Request x) (o : Outcome (Unit {0}) TransferRow) (d : db.Db) {s : TransferRow}
      {e : db.Db}
      → to_model x j tr ≡ o
      → db.row_of d tr.internal_id ≡ some s
      → put_row x j db o d ≡ (ok tt, e)
      → Wrote x j db sql leaves tr s.role e
  unfolding put_row
  put_row-Wrote tr (ok r) d {s = s} {e = e} m f h = record {
    row = r;
    model = m;
    kept =
        sql.row_of-upsert r d (executed-true x j db sql leaves (db.upsert r d) h)
          (ap (db.row_of d) (columns-ids tr r m) ∙ f);
  }
  put_row-Wrote tr (err _) d m f h = cc
  put_row-Wrote tr panicked d m f h = cc

  -- A write that succeeds is one of a transfer that is writable.
  modified_written :
      (ro modified : Bool) (p q : Done x j db) (d : db.Db) {e : db.Db}
      → modified ≡ true
      → (if ro then (panicked, d) else if modified then p else q) ≡ (ok tt, e)
      → p ≡ (ok tt, e)
  modified_written true m p q d t h = cc
  modified_written false true p q d t h = h
  modified_written false false p q d t h = cc

  put_transfer-Wrote :
      (tr : Request x) (d : db.Db) {s : TransferRow} {e : db.Db}
      → tr.modified ≡ true
      → db.row_of d tr.internal_id ≡ some s
      → put_transfer x j db tr d ≡ (ok tt, e)
      → Wrote x j db sql leaves tr s.role e
  unfolding put_transfer
  put_transfer-Wrote tr d m f h =
      put_row-Wrote tr (to_model x j tr) d refl f
        (modified_written tr.ro tr.modified _ (release_transfer x j db tr d) d m h)

  -- The row of the transfer, locked, is read back with whatever agreement has its id.
  joined_written :
      (tr next : Request x) (w : TransferRow) (o : Option AgreementRow) (d : db.Db)
      → to_model x j tr ≡ ok w
      → db.select_agreement w.agreement_id d ≡ o
      → joined x j db (record w { locked = true; agreement = no_agreement }) o ≡ ok next
      → next ≡ as_read tr
  unfolding joined
  joined_written tr next w none d m g h = cc
  joined_written tr next w (some a) d m g h =
      let t =
        transfer_model_round_trip x law j codec tr w a false m (sql.select_agreement-id _ d g) in
      let u = from_model-parts x j db sql leaves (record w { agreement = a }) false t in
      some_inj (sym (of_option-some _ h) ∙ u.1)

  -- A modified transfer that is stored with success in its row, and then read for writing, by a query
  -- that finds the same database id and while others leave the transfers alone, is read as it was, if
  -- its row had its role before. Only the marks that are not kept are gone, and it is writable and
  -- locked.
  pub put_transfer-get_transfer_locked :
      (tr next : Request x) (d : db.Db) (n : ℕ) (p : Params x) {s : TransferRow} {e f : db.Db}
      → tr.modified ≡ true
      → db.row_of d tr.internal_id ≡ some s
      → role_string tr.role ≡ ok s.role
      → put_transfer x j db tr d ≡ (ok tt, e)
      → get_transfer_locked x j db n p e ≡ (ok next, f)
      → next.internal_id ≡ tr.internal_id
      → next ≡ as_read tr
  unfolding acquired
  put_transfer-get_transfer_locked tr next d n p {s = s} {e = e} {f = f} m o r h g i =
      let w = put_transfer-Wrote tr d m o h in
      let t = get_transfer_locked-Reads x j db sql leaves n p e (ok next, f) g in
      let k = joined-id x j db sql leaves t.row _ t.made in
      let before = some_inj (
        sym t.found ∙ ap (db.row_of e) (sym k ∙ i ∙ sym (columns-ids tr w.row w.model)) ∙ w.kept) in
      let named : s.role ≡ w.row.role =
        ok_inj (sym r ∙ (to_model-Written x law j codec tr w.row w.model).role) in
      let same : t.row ≡ record w.row { locked = true; agreement = no_agreement } =
        t.same
        ∙ ap {A = TransferRow} (λ c. record c { locked = true; agreement = no_agreement }) before
        ∙ ap {A = String} (λ u. record w.row { role = u; locked = true; agreement = no_agreement })
            named in
      joined_written tr next w.row (db.select_agreement w.row.agreement_id f) f w.model refl
        (subst (λ c. acquired x j db c f ≡ ok next) same t.made)
