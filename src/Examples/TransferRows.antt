-- ===== src/Examples/TransferRows.antt =====
-- A table of transfers that meets its laws, with room for one row; and a transfer that is stored in it
-- and read back.
use run_dsp.Prelude.{
  ℕ, ◌≡◌, refl, Bool, true, false, Option, none, some, List, arith, nat_eq, if◌then◌else◌,
}
use run_dsp.Exec.{ok, err}
use run_dsp.Role.{role_string}
use run_dsp.Transfer.Model.{TransferRow, no_agreement}
use run_dsp.Transfer.Request.{Request}
use run_dsp.Sqlite.Database.{Scanned, no_rows, row}
use run_dsp.Sqlite.TransferQuery.{Condition, Params, no_params, where_group}
use run_dsp.Sqlite.TransferTable.{Table, IsTable}
use run_dsp.Sqlite.Transfers.{get_transfer_locked, get_transfers, put_transfer, acquired}
use run_dsp.Sqlite.TransferTrip.{as_read, put_transfer-get_transfer_locked}
use run_dsp.Examples.World.{world, world-IsLawful, unary}
use run_dsp.Examples.Storing.{
  json, json-IsJson, transfer_row, unpublished, writes_changed_transfer, reads_transfer_row,
}

unfoldable select : List Condition → Option TransferRow → Scanned TransferRow
select q none = no_rows
select q (some r) = row r

unfoldable lock : List Condition → Option TransferRow → Scanned TransferRow × Option TransferRow
lock q none = (no_rows, none)
lock q (some r) =
    let taken = record r { locked = true; agreement = no_agreement } in
    if r.locked then (no_rows, some r) else (row taken, some taken)

unfoldable upsert : TransferRow → Option TransferRow → Bool × Option TransferRow
upsert w none = (true, some (record w { agreement = no_agreement }))
upsert w (some r) =
    if nat_eq r.id w.id
    then (true, some (record w { role = r.role; agreement = no_agreement }))
    else (false, some r)

unfoldable unlock : (id : ℕ) → Option TransferRow → Bool × Option TransferRow
unlock id none = (true, none)
unlock id (some r) =
    if nat_eq r.id id then (true, some (record r { locked = false })) else (true, some r)

unfoldable row_of : Option TransferRow → (id : ℕ) → Option TransferRow
row_of none id = none
row_of (some r) id = if nat_eq r.id id then some r else none

-- Every agreement is there.
abbrev table : Table
table = record {
  Db = Option TransferRow;
  count = λ q d. some 1;
  select = select;
  select_all = λ q d. none;
  select_agreement = λ id d. some (record { id = id; odrl = "" });
  lock = lock;
  upsert = upsert;
  unlock = unlock;
  sleep = λ d. d;
  row_of = row_of;
}

lock-row_of :
    (q : List Condition) (d : Option TransferRow) {r : TransferRow} {e : Option TransferRow}
    → lock q d ≡ (row r, e)
    → (before : TransferRow) × (row_of d r.id ≡ some before)
      × (r ≡ record before { locked = true; agreement = no_agreement })
unfolding lock row_of
lock-row_of q none h = cc
lock-row_of q (some before) h = (before, ground arith, ground arith)

lock_unchanged :
    (q : List Condition) (d : Option TransferRow) {e : Option TransferRow}
    → lock q d ≡ (no_rows, e)
    → e ≡ d
unfolding lock
lock_unchanged q none h = cc
lock_unchanged q (some r) h = ground arith

unlocked-row_of :
    (id : ℕ) (d : Option TransferRow) {r : TransferRow} {e : Option TransferRow}
    → unlock id d ≡ (true, e)
    → row_of d id ≡ some r
    → row_of e id ≡ some (record r { locked = false })
unfolding unlock row_of
unlocked-row_of id none h f = cc
unlocked-row_of id (some s) h f = ground arith

upserted-row_of :
    (r : TransferRow) (d : Option TransferRow) {s : TransferRow} {e : Option TransferRow}
    → upsert r d ≡ (true, e)
    → row_of d r.id ≡ some s
    → row_of e r.id ≡ some (record r { role = s.role; agreement = no_agreement })
unfolding upsert row_of
upserted-row_of r none h f = cc
upserted-row_of r (some s) h f = ground arith

table-IsTable : IsTable table
table-IsTable = record {
  lock-row = lock-row_of;
  lock-no_rows = lock_unchanged;
  row_of-unlock = unlocked-row_of;
  row_of-upsert = upserted-row_of;
  select_agreement-id = λ id d h. cc;
}

abbrev by_id : Params world
by_id = record (no_params world) { provider_pid = some 1 }

abbrev changed : Request world
changed = record unpublished { modified = true }

abbrev free_row : TransferRow
free_row = record transfer_row { agreement = no_agreement }

abbrev held_row : TransferRow
held_row = record free_row { locked = true }

writes_changed : put_transfer world json table changed (some held_row) ≡ (ok tt, some free_row)
unfolding put_transfer upsert
writes_changed = rw writes_changed_transfer refl

reads_changed :
    get_transfer_locked world json table 1 by_id (some free_row)
    ≡ (ok (as_read changed), some held_row)
unfolding get_transfer_locked where_group lock unary acquired
reads_changed = rw reads_transfer_row refl

put_transfer-get_transfer_locked_example : as_read changed ≡ as_read changed
unfolding row_of role_string
put_transfer-get_transfer_locked_example =
    put_transfer-get_transfer_locked world world-IsLawful json json-IsJson table table-IsTable
      (λ d id. refl) changed (as_read changed) (some held_row) 1 by_id {s = held_row} refl refl refl
      writes_changed reads_changed refl

-- Several transfers are not read for writing.
reads_none : get_transfers world json table (record by_id { rw = true }) none ≡ (err tt, none)
unfolding get_transfers
reads_none = refl
