-- ===== src/Sqlite/Agreements.antt =====
-- dsp/persistence/backends/sqlite/agreement_saver.go: storing an agreement and reading it.
use run_dsp.Prelude.{String, ◌≡◌, refl, sym, ap, ◌∙◌, Bool, true, false, Option, none, some, arith}
use run_dsp.Exec.{Outcome, ok, err}
use run_dsp.Extern.{Extern}
use run_dsp.Json.{Json, IsJson, as_stored}
use run_dsp.Odrl.{Agreement}
use run_dsp.Contract.Model.{AgreementRow, from_odrl_agreement, to_odrl_agreement}

-- SQL on the table of agreements: `INSERT`, with its success, and `SELECT … WHERE id = ?`.
pub record AgreementTable : Type 1 where
  pub Db : Type 0
  pub insert : AgreementRow → Db → Bool × Db
  pub select : (id : String) → Db → Option AgreementRow

-- A row that was inserted is found by its key.
pub record IsTable (t : AgreementTable) : Type 0 where
  pub select-insert :
      (r : AgreementRow) (d : t.Db) {e : t.Db} → t.insert r d ≡ (true, e) → t.select r.id e ≡ some r

-- `agreementBuilder`, and the option that sets its id.
abbrev pub AgreementQuery : Extern → Type 0
AgreementQuery x = Option x.Uuid

abbrev pub with_agreement_id : (x : Extern) → x.Uuid → AgreementQuery x → AgreementQuery x
with_agreement_id x id q = some id

module _ (x : Extern) (j : Json x) (t : AgreementTable) where
  converted : Option (Agreement x) → Outcome (Unit {0}) (Agreement x)
  converted none = err tt
  converted (some a) = ok a

  read_row : Option AgreementRow → Outcome (Unit {0}) (Agreement x)
  unfolding converted to_odrl_agreement
  read_row none = err tt
  read_row (some r) = converted (to_odrl_agreement x j r)

  -- `GetAgreement` and the `Get` of its query, for the id that the options set, if any.
  unfoldable pub get_agreement : (id : AgreementQuery x) → t.Db → Outcome (Unit {0}) (Agreement x)
  unfolding read_row
  get_agreement none d = err tt
  get_agreement (some id) d = read_row (t.select (x.urn id) d)

  inserted : Bool × t.Db → Outcome (Unit {0}) (Unit {0}) × t.Db
  inserted (true, d) = (ok tt, d)
  inserted (false, d) = (err tt, d)

  insert_row : Option AgreementRow → t.Db → Outcome (Unit {0}) (Unit {0}) × t.Db
  unfolding inserted
  insert_row none d = (err tt, d)
  insert_row (some r) d = inserted (t.insert r d)

  -- `PutAgreement`
  unfoldable pub put_agreement : Agreement x → t.Db → Outcome (Unit {0}) (Unit {0}) × t.Db
  unfolding insert_row from_odrl_agreement
  put_agreement a d = insert_row (from_odrl_agreement x j a) d

module _ (x : Extern) (j : Json x) (codec : IsJson x j) (t : AgreementTable) (law : IsTable t) where
  inserted-true : (r : Bool × t.Db) {e : t.Db} → inserted x j t r ≡ (ok tt, e) → r ≡ (true, e)
  unfolding inserted
  inserted-true (true, d) h = cc
  inserted-true (false, d) h = cc

  read_row-found :
      (a : Agreement x) (o : Option AgreementRow) {r : AgreementRow}
      → o ≡ some r
      → j.agreement.marshal a ≡ some r.odrl
      → read_row x j t o ≡ ok (as_stored x j a)
  unfolding read_row converted to_odrl_agreement
  read_row-found a none h m = cc
  read_row-found a (some r) h m = ground (arith, codec.unmarshal_agreement a r.odrl)

  -- What the row of an agreement is made of.
  from_odrl_agreement-row :
      (a : Agreement x) (r : AgreementRow) {u : x.Uuid}
      → from_odrl_agreement x j a ≡ some r
      → x.parse_uuid a.id ≡ some u
      → (r.id ≡ x.urn u) × (j.agreement.marshal a ≡ some r.odrl)
  unfolding from_odrl_agreement
  from_odrl_agreement-row a r h p = ground arith

  put_row-found :
      (a : Agreement x) (u : x.Uuid) (o : Option AgreementRow) (d : t.Db) {e : t.Db}
      → from_odrl_agreement x j a ≡ o
      → x.parse_uuid a.id ≡ some u
      → insert_row x j t o d ≡ (ok tt, e)
      → read_row x j t (t.select (x.urn u) e) ≡ ok (as_stored x j a)
  unfolding insert_row
  put_row-found a u none d o p h = cc
  put_row-found a u (some r) d {e = e} o p h =
      let (i, m) = from_odrl_agreement-row a r o p in
      let found = law.select-insert r d (inserted-true (t.insert r d) h) in
      read_row-found a (t.select (x.urn u) e) (ap (λ k. t.select k e) (sym i) ∙ found) m

  -- An agreement that `PutAgreement` stores with success is what `GetAgreement` reads for the UUID of its
  -- id, in whatever form the agreement itself writes that UUID: with all its fields, but for the ID of
  -- its policy, which is lost, and with its time as JSON keeps it.
  pub put_agreement-get_agreement :
      (a : Agreement x) (u : x.Uuid) (d : t.Db) {e : t.Db}
      → x.parse_uuid a.id ≡ some u
      → put_agreement x j t a d ≡ (ok tt, e)
      → get_agreement x j t (some u) e ≡ ok (as_stored x j a)
  unfolding put_agreement get_agreement
  put_agreement-get_agreement a u d p h = put_row-found a u (from_odrl_agreement x j a) d refl p h
