-- ===== src/Sqlite/Database.antt =====
-- The database that dsp/persistence/backends/sqlite calls, as an interface: SQL on the tables of
-- negotiations and agreements. `IsDatabase` is what SQL says of these statements.
use run_dsp.Prelude.{
  ℕ, String, ◌≡◌, Bool, true, false, ◌&&◌, Option, none, some, List, [], ◌∷◌, str_eq,
}
use run_dsp.Contract.Model.{ContractRow, AgreementRow}
use run_dsp.Sqlite.Query.{
  Condition, is_locked, has_consumer_pid, has_provider_pid, has_agreement_id, has_callback,
  has_role, has_state,
}

-- The end of a statement that returns one row.
pub data Scanned (Row : Type 0) : Type 0 where
  no_rows failed : Scanned Row
  row : Row → Scanned Row

pub record Database : Type 1 where
  pub Db : Type 0
  -- `SELECT count(*) … WHERE`, `none` for an error.
  pub count : List Condition → Db → Option ℕ
  -- `SELECT … WHERE`, with the row of the agreement joined: one row, and all of them.
  pub select : List Condition → Db → Scanned ContractRow
  pub select_all : List Condition → Db → Option (List ContractRow)
  -- `SELECT … WHERE id = ?` on the agreements.
  pub select_agreement : (id : String) → Db → Option AgreementRow
  -- `UPDATE … SET locked = true WHERE … RETURNING *`
  pub lock : List Condition → Db → Scanned ContractRow × Db
  -- `INSERT … ON CONFLICT (id) DO UPDATE …` and `UPDATE … SET locked = false WHERE id = ?`, with their
  -- success.
  pub upsert : ContractRow → Db → Bool × Db
  pub unlock : (id : ℕ) → Db → Bool × Db
  -- What others do to the database while we sleep for a second.
  pub sleep : Db → Db
  -- The row of a negotiation, by its primary key, as the table keeps it.
  pub row_of : Db → (id : ℕ) → Option ContractRow

abbrev equals : Option String → String → Bool
equals none t = false
equals (some s) t = str_eq s t

abbrev eq_bool : Bool → Bool → Bool
eq_bool true b = b
eq_bool false true = false
eq_bool false false = true

abbrev pub holds : Condition → ContractRow → Bool
holds (is_locked b) r = eq_bool r.locked b
holds (has_consumer_pid s) r = equals r.consumer_pid s
holds (has_provider_pid s) r = equals r.provider_pid s
holds (has_agreement_id s) r = equals r.agreement_id s
holds (has_callback s) r = str_eq r.callback_url s
holds (has_role s) r = str_eq r.role s
holds (has_state s) r = str_eq r.state s

abbrev pub all_hold : List Condition → ContractRow → Bool
all_hold [] r = true
all_hold (c ∷ q) r = holds c r && all_hold q r

-- `r` was locked by an `UPDATE`: before it was a row for which the conditions hold.
pub record Locked (db : Database) (q : List Condition) (d : db.Db) (r : ContractRow) (e : db.Db)
    : Type 0 where
  pub before : ContractRow
  pub found : db.row_of d r.id ≡ some before
  pub met : all_hold q before ≡ true
  pub same : r ≡ record before { locked = true; agreement = none }
  pub kept : db.row_of e r.id ≡ some r

pub record IsDatabase (db : Database) : Type 0 where
  pub lock-row :
      (q : List Condition) (d : db.Db) {r : ContractRow} {e : db.Db}
      → db.lock q d ≡ (row r, e)
      → Locked db q d r e
  -- A statement that updates no row changes nothing.
  pub lock-no_rows :
      (q : List Condition) (d : db.Db) {e : db.Db} → db.lock q d ≡ (no_rows, e) → e ≡ d
  pub lock-failed : (q : List Condition) (d : db.Db) {e : db.Db} → db.lock q d ≡ (failed, e) → e ≡ d
  pub row_of-unlock :
      (id : ℕ) (d : db.Db) {r : ContractRow} {e : db.Db}
      → db.unlock id d ≡ (true, e)
      → db.row_of d id ≡ some r
      → db.row_of e id ≡ some (record r { locked = false })
  -- The statement leaves the role of a row that it updates.
  pub row_of-upsert :
      (r : ContractRow) (d : db.Db) {s : ContractRow} {e : db.Db}
      → db.upsert r d ≡ (true, e)
      → db.row_of d r.id ≡ some s
      → db.row_of e r.id ≡ some (record r { role = s.role; agreement = none })
