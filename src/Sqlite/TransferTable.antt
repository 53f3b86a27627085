-- ===== src/Sqlite/TransferTable.antt =====
-- The table of transfers that dsp/persistence/backends/sqlite/transfer_saver.go calls, as an interface.
-- `IsTable` is what SQL says of these statements.
use run_dsp.Prelude.{ℕ, String, ◌≡◌, Bool, true, false, Option, some, List}
use run_dsp.Contract.Model.{AgreementRow}
use run_dsp.Transfer.Model.{TransferRow, no_agreement}
use run_dsp.Sqlite.Database.{Scanned, no_rows, row}
use run_dsp.Sqlite.TransferQuery.{Condition}

pub record Table : Type 1 where
  pub Db : Type 0
  -- `SELECT count(*) … WHERE`, `none` for an error.
  pub count : List Condition → Db → Option ℕ
  -- `SELECT … WHERE`, with the row of the agreement joined: one row, and all of them.
  pub select : List Condition → Db → Scanned TransferRow
  pub select_all : List Condition → Db → Option (List TransferRow)
  -- `SELECT … WHERE id = ?` on the agreements.
  pub select_agreement : (id : String) → Db → Option AgreementRow
  -- `UPDATE … SET locked = true WHERE … RETURNING *`
  pub lock : List Condition → Db → Scanned TransferRow × Db
  -- `INSERT … ON CONFLICT (id) DO UPDATE …` and `UPDATE … SET locked = false WHERE id = ?`, with their
  -- success.
  pub upsert : TransferRow → Db → Bool × Db
  pub unlock : (id : ℕ) → Db → Bool × Db
  -- What others do to the database while we sleep for a second.
  pub sleep : Db → Db
  -- The row of a transfer, by its primary key, as the table keeps it.
  pub row_of : Db → (id : ℕ) → Option TransferRow

pub record IsTable (db : Table) : Type 0 where
  -- A row that an `UPDATE` returns is the row that it has locked.
  pub lock-row :
      (q : List Condition) (d : db.Db) {r : TransferRow} {e : db.Db}
      → db.lock q d ≡ (row r, e)
      → (before : TransferRow) × (db.row_of d r.id ≡ some before)
        × (r ≡ record before { locked = true; agreement = no_agreement })
  -- A statement that updates no row changes nothing.
  pub lock-no_rows :
      (q : List Condition) (d : db.Db) {e : db.Db} → db.lock q d ≡ (no_rows, e) → e ≡ d
  pub row_of-unlock :
      (id : ℕ) (d : db.Db) {r : TransferRow} {e : db.Db}
      → db.unlock id d ≡ (true, e)
      → db.row_of d id ≡ some r
      → db.row_of e id ≡ some (record r { locked = false })
  -- The statement leaves the role of a row that it updates.
  pub row_of-upsert :
      (r : TransferRow) (d : db.Db) {s : TransferRow} {e : db.Db}
      → db.upsert r d ≡ (true, e)
      → db.row_of d r.id ≡ some s
      → db.row_of e r.id ≡ some (record r { role = s.role; agreement = no_agreement })
  pub select_agreement-id :
      (id : String) (d : db.Db) {g : AgreementRow} → db.select_agreement id d ≡ some g → g.id ≡ id
