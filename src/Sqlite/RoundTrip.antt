-- ===== src/Sqlite/RoundTrip.antt =====
-- dsp/persistence/backends/sqlite/contract_saver.go: a negotiation that is stored and then read for writing.
use run_dsp.Prelude.{
  ℕ, String, ◌≡◌, refl, sym, ap, ◌∙◌, Bool, true, false, Option, none, some, arith, if◌then◌else◌,
}
use mathlib.Core.Path.{subst}
use run_dsp.Exec.{Outcome, ok, err, panicked}
use run_dsp.Extern.{Extern, IsLawful}
use run_dsp.Json.{Json, IsJson}
use run_dsp.Role.{role_string}
use run_dsp.Odrl.{Agreement}
use run_dsp.Contract.Model.{
  ContractRow, AgreementRow, from_model, to_model, from_odrl_agreement, columns, id_of,
}
use run_dsp.Contract.RoundTrip.{contract_model_round_trip, to_model-Written, stored_agreement}
use run_dsp.Contract.Negotiation.{Negotiation}
use run_dsp.Sqlite.Query.{Params}
use run_dsp.Sqlite.Database.{Database, IsDatabase}
use run_dsp.Sqlite.Contracts.{
  Done, joined, with_agreement, acquired, get_contract_locked, release_contract, put_row,
  put_contract,
}
use run_dsp.Sqlite.Locking.{with_agreement-fields, of_some}
use run_dsp.Sqlite.Releasing.{executed-true}
use run_dsp.Sqlite.Reading.{Undisturbed, get_contract_locked-Reads}

-- The agreement of a negotiation is in its table, under the id that the negotiation's row names.
abbrev pub HasAgreement :
    (x : Extern) (j : Json x) (db : Database) → Option (Agreement x) → db.Db → Type 0
HasAgreement x j db none d = Unit
HasAgreement x j db (some a) d =
    (g : AgreementRow) × (db.select_agreement a.id d ≡ some g)
    × (from_odrl_agreement x j a ≡ some g)

of_ok : {E A : Type 0} {a b : A} → ◌≡◌ {A = Outcome E A} (ok a) (ok b) → a ≡ b
of_ok h = cc

-- What a negotiation is when it is read for writing.
abbrev pub as_read : (x : Extern) → Json x → Negotiation x → Negotiation x
as_read x j cn = record cn {
  agreement = stored_agreement x j cn.agreement;
  initial = false;
  modified = false;
  new_agreement = false;
  ro = false;
  locked = true;
}

module _ (x : Extern) (j : Json x) where
  from_model-locked :
      (r : ContractRow) (ro : Bool) {cn : Negotiation x}
      → from_model x j r ro ≡ some cn
      → from_model x j (record r { locked = true }) ro ≡ some (record cn { locked = true })
  unfolding from_model
  from_model-locked r ro h = ground arith

module _ (x : Extern) (law : IsLawful x) (j : Json x) (codec : IsJson x j) (db : Database) where
  id_column :
      (cn : Negotiation x) (r : ContractRow) → to_model x j cn ≡ ok r → r.id ≡ cn.internal_id
  unfolding columns
  id_column cn r h = ap (λ s. s.id) (to_model-Written x law j codec cn r h).rest

  id_of_agreement :
      (cn : Negotiation x) (r : ContractRow)
      → to_model x j cn ≡ ok r
      → r.agreement_id ≡ id_of x j cn.agreement
  unfolding columns
  id_of_agreement cn r h = ap (λ s. s.agreement_id) (to_model-Written x law j codec cn r h).rest

  -- The row of a negotiation is read back, whether or not it has an agreement.
  with_agreement-written :
      (cn : Negotiation x) (r : ContractRow) (o : Option (Agreement x)) (d : db.Db)
      → to_model x j cn ≡ ok r
      → cn.agreement ≡ o
      → HasAgreement x j db o d
      → with_agreement x j db (record r { locked = true; agreement = none }) (id_of x j o) d
        ≡ ok (as_read x j cn)
  unfolding with_agreement joined
  with_agreement-written cn r none d h a k =
      rw
        (from_model-locked x j (record r { agreement = none }) false
          (contract_model_round_trip x law j codec cn r none false h (rw a tt)))
        refl
  with_agreement-written cn r (some ag) d h a (g, s, t) =
      rw
        (
          s,
          from_model-locked x j (record r { agreement = some g }) false
              (contract_model_round_trip x law j codec cn r (some g) false h (rw a t)),
        )
        refl

  module _ (sql : IsDatabase db) (undisturbed : Undisturbed db) where
    -- What a successful write leaves in the row.
    record Wrote (cn : Negotiation x) (role : String) (e : db.Db) : Type 0 where
      pub row : ContractRow
      pub model : to_model x j cn ≡ ok row
      pub kept : db.row_of e cn.internal_id ≡ some (record row { role = role; agreement = none })

    put_row-Wrote :
        (cn : Negotiation x) (o : Outcome (Unit {0}) ContractRow) (d : db.Db) {s : ContractRow}
        {e : db.Db}
        → to_model x j cn ≡ o
        → db.row_of d cn.internal_id ≡ some s
        → put_row x j db o d ≡ (ok tt, e)
        → Wrote cn s.role e
    unfolding put_row
    put_row-Wrote cn (ok r) d {s = s} {e = e} m f h =
        let i = id_column cn r m in
        record {
          row = r;
          model = m;
          kept =
              ap (db.row_of e) (sym i)
              ∙ sql.row_of-upsert r d (executed-true x j db sql (db.upsert r d) h)
                  (ap (db.row_of d) i ∙ f);
        }
    put_row-Wrote cn (err _) d m f h = cc
    put_row-Wrote cn panicked d m f h = cc

    written :
        (ro : Bool) (p : Done x j db) (d : db.Db) {e : db.Db}
        → (if ro then (panicked, d) else p) ≡ (ok tt, e)
        → p ≡ (ok tt, e)
    written true p d h = cc
    written false p d h = h

    put_contract-Wrote :
        (cn : Negotiation x) (d : db.Db) {s : ContractRow} {e : db.Db}
        → cn.modified ≡ true
        → db.row_of d cn.internal_id ≡ some s
        → put_contract x j db cn d ≡ (ok tt, e)
        → Wrote cn s.role e
    unfolding put_contract
    put_contract-Wrote cn d {e = e} w f h = put_row-Wrote cn (to_model x j cn) d refl f (
        written cn.ro (put_row x j db (to_model x j cn) d) d (
          subst
            (λ b.
              (if cn.ro
                then (panicked, d)
                else if b
                then put_row x j db (to_model x j cn) d
                else release_contract x j db cn d)
              ≡ (ok tt, e))
            w h))

    -- The row that was locked is the one that was written.
    same_row :
        (cn : Negotiation x) (w before r : ContractRow) {role : String}
        → to_model x j cn ≡ ok w
        → role_string cn.role ≡ ok role
        → before ≡ record w { role = role; agreement = none }
        → r ≡ record before { locked = true; agreement = none }
        → r ≡ record w { locked = true; agreement = none }
    same_row cn w before r {role = role} m n b s =
        let named : role ≡ w.role = of_ok (sym n ∙ (to_model-Written x law j codec cn w m).role) in
        s
        ∙ ap {A = ContractRow} (λ c. record c { locked = true; agreement = none }) b
        ∙ ap {A = String} (λ t. record w { role = t; locked = true; agreement = none }) named

    -- A row that was locked is read as the negotiation that it was written from.
    as_written :
        (cn next : Negotiation x) (w r : ContractRow) (d : db.Db)
        → to_model x j cn ≡ ok w
        → HasAgreement x j db cn.agreement d
        → r ≡ record w { locked = true; agreement = none }
        → acquired x j db r d ≡ ok next
        → next ≡ as_read x j cn
    as_written cn next w r d m a s h =
        let row = record w { locked = true; agreement = none } in
        let made = subst (λ c. acquired x j db c d ≡ ok next) s h in
        let id = id_of_agreement cn w m in
        of_ok (
          sym made
          ∙ ap (λ i. with_agreement x j db row i d) id
          ∙ with_agreement-written cn w cn.agreement d m refl a)

    -- A modified negotiation that is stored with success in its row, and then read for writing,
    -- by a query that finds the same database id and while others leave the negotiations alone,
    -- is read as it was, if its row had its role before and its agreement is kept under the id in
    -- that row. Only the marks that are not kept are gone, the agreement has lost the ID of its policy
    -- and has its time as JSON keeps it, and the negotiation is writable and locked.
    pub put_contract-get_contract_locked :
        (cn : Negotiation x) (d : db.Db) (n : ℕ) (p : Params x) {s : ContractRow} {e f : db.Db}
        {next : Negotiation x}
        → cn.modified ≡ true
        → db.row_of d cn.internal_id ≡ some s
        → role_string cn.role ≡ ok s.role
        → put_contract x j db cn d ≡ (ok tt, e)
        → get_contract_locked x j db n p e ≡ (ok next, f)
        → next.internal_id ≡ cn.internal_id
        → HasAgreement x j db cn.agreement f
        → next ≡ as_read x j cn
    put_contract-get_contract_locked cn d n p {s = s} {e = e} {f = f} {next = next} m r o h g i a =
        let w = put_contract-Wrote cn d m r h in
        let t = get_contract_locked-Reads x j db sql undisturbed n p e (ok next, f) g in
        let k = (with_agreement-fields x j db t.row t.row.agreement_id f t.made).0 in
        let before = of_some (sym t.found ∙ ap (db.row_of e) (sym k ∙ i) ∙ w.kept) in
        as_written cn next w.row t.row f w.model a
          (same_row cn w.row t.before t.row w.model o before t.same) t.made
