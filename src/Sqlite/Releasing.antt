-- ===== src/Sqlite/Releasing.antt =====
-- dsp/persistence/backends/sqlite/contract_saver.go: storing or releasing a negotiation frees its row.
use run_dsp.Prelude.{
  ℕ, ◌≡◌, refl, sym, ap, ◌∙◌, Bool, true, false, none, some, arith, if◌then◌else◌,
}
use run_dsp.Exec.{Outcome, ok, err, panicked}
use run_dsp.Extern.{Extern}
use run_dsp.Json.{Json}
use run_dsp.Contract.Model.{ContractRow, to_model, columns, with_columns, named}
use run_dsp.Contract.Negotiation.{Negotiation}
use run_dsp.Sqlite.Database.{Database, IsDatabase}
use run_dsp.Sqlite.Contracts.{Done, executed, release_row, release_contract, put_row, put_contract}

-- The row of a negotiation is there and not locked.
pub record IsFree (db : Database) (id : ℕ) (d : db.Db) : Type 0 where
  pub row : ContractRow
  pub kept : db.row_of d id ≡ some row
  pub free : row.locked ≡ false

-- The row, if there is one, that `ToModel` makes of a negotiation with this id.
abbrev IsRowOf : ℕ → Outcome (Unit {0}) ContractRow → Type 0
IsRowOf id (ok r) = (r.id ≡ id) × (r.locked ≡ false)
IsRowOf id (err _) = Unit
IsRowOf id panicked = Unit

module _ (x : Extern) (j : Json x) where
  to_model-columns :
      (cn : Negotiation x) (r : ContractRow)
      → to_model x j cn ≡ ok r
      → (r.id ≡ cn.internal_id) × (r.locked ≡ false)
  unfolding to_model with_columns named columns
  to_model-columns cn r h = ground arith

  to_model-IsRowOf :
      (cn : Negotiation x) (o : Outcome (Unit {0}) ContractRow)
      → to_model x j cn ≡ o
      → IsRowOf cn.internal_id o
  to_model-IsRowOf cn (ok r) h = to_model-columns cn r h
  to_model-IsRowOf cn (err _) h = tt
  to_model-IsRowOf cn panicked h = tt

module _ (x : Extern) (j : Json x) (db : Database) (sql : IsDatabase db) where
  pub executed-true :
      (r : Bool × db.Db) {e : db.Db} → executed x j db r ≡ (ok tt, e) → r ≡ (true, e)
  executed-true (true, d) h = cc
  executed-true (false, d) h = cc

  release_row-IsFree :
      (id : ℕ) (o : Outcome (Unit {0}) ContractRow) (d : db.Db) {s : ContractRow} {e : db.Db}
      → IsRowOf id o
      → db.row_of d id ≡ some s
      → release_row x j db o d ≡ (ok tt, e)
      → IsFree db id e
  unfolding release_row
  release_row-IsFree id (ok r) d {s = s} {e = e} (i, l) f h = record {
    row = record s { locked = false };
    kept =
        ap (db.row_of e) (sym i)
        ∙ sql.row_of-unlock r.id d (executed-true (db.unlock r.id d) h) (ap (db.row_of d) i ∙ f);
    free = refl;
  }
  release_row-IsFree id (err _) d k f h = cc
  release_row-IsFree id panicked d k f h = cc

  put_row-IsFree :
      (id : ℕ) (o : Outcome (Unit {0}) ContractRow) (d : db.Db) {s : ContractRow} {e : db.Db}
      → IsRowOf id o
      → db.row_of d id ≡ some s
      → put_row x j db o d ≡ (ok tt, e)
      → IsFree db id e
  unfolding put_row
  put_row-IsFree id (ok r) d {s = s} {e = e} (i, l) f h = record {
    row = record r { role = s.role; agreement = none };
    kept =
        ap (db.row_of e) (sym i)
        ∙ sql.row_of-upsert r d (executed-true (db.upsert r d) h) (ap (db.row_of d) i ∙ f);
    free = l;
  }
  put_row-IsFree id (err _) d k f h = cc
  put_row-IsFree id panicked d k f h = cc

  -- A write that succeeds went one of two ways.
  pub put-cases :
      (ro modified : Bool) (written released : Done x j db) (d : db.Db) {e : db.Db} {G : Type 0}
      → (if ro then (panicked, d) else if modified then written else released) ≡ (ok tt, e)
      → (written ≡ (ok tt, e) → G)
      → (released ≡ (ok tt, e) → G)
      → G
  put-cases true modified written released d h k l = cc
  put-cases false true written released d h k l = k h
  put-cases false false written released d h k l = l h

  release_contract-IsFree :
      (cn : Negotiation x) (d : db.Db) {s : ContractRow} {e : db.Db}
      → db.row_of d cn.internal_id ≡ some s
      → release_contract x j db cn d ≡ (ok tt, e)
      → IsFree db cn.internal_id e
  unfolding release_contract
  release_contract-IsFree cn d f h =
      release_row-IsFree cn.internal_id (to_model x j cn) d (to_model-IsRowOf x j cn _ refl) f h

  -- When `PutContract` returns without an error, then the negotiation's row, if there was one, is there
  -- and is not locked, whether the negotiation was modified and written or unmodified and released.
  pub put_contract-IsFree :
      (cn : Negotiation x) (d : db.Db) {s : ContractRow} {e : db.Db}
      → db.row_of d cn.internal_id ≡ some s
      → put_contract x j db cn d ≡ (ok tt, e)
      → IsFree db cn.internal_id e
  unfolding put_contract
  put_contract-IsFree cn d f h =
      put-cases cn.ro cn.modified (put_row x j db (to_model x j cn) d)
        (release_contract x j db cn d) d h
        (put_row-IsFree cn.internal_id (to_model x j cn) d (to_model-IsRowOf x j cn _ refl) f)
        (release_contract-IsFree cn d f)
