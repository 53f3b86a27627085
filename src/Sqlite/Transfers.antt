-- ===== src/Sqlite/Transfers.antt =====
-- dsp/persistence/backends/sqlite/transfer_saver.go: reading transfers, for writing or not, storing one
-- and releasing it. The texts of the errors are left out.
use run_dsp.Prelude.{
  ℕ, zero, suc, Bool, true, false, Option, none, some, List, [], ◌∷◌, if◌then◌else◌, nat_eq,
}
use run_dsp.Exec.{Outcome, ok, err, panicked}
use run_dsp.Extern.{Extern}
use run_dsp.Json.{Json}
use run_dsp.Contract.Model.{AgreementRow}
use run_dsp.Transfer.Model.{TransferRow, from_model, to_model}
use run_dsp.Transfer.Request.{Request}
use run_dsp.Sqlite.Contracts.{of_option}
use run_dsp.Sqlite.Database.{Scanned, no_rows, failed, row}
use run_dsp.Sqlite.TransferQuery.{Condition, Params, where_group}
use run_dsp.Sqlite.TransferTable.{Table}

module _ (x : Extern) (j : Json x) (db : Table) where
  abbrev pub Read : Type 0
  Read = Outcome (Unit {0}) (Request x) × db.Db

  abbrev pub ReadAll : Type 0
  ReadAll = Outcome (Unit {0}) (List (Request x)) × db.Db

  abbrev pub Done : Type 0
  Done = Outcome (Unit {0}) (Unit {0}) × db.Db

  -- A row that has just been locked, with its agreement.
  unfoldable pub joined : TransferRow → Option AgreementRow → Outcome (Unit {0}) (Request x)
  joined tr none = err tt
  joined tr (some ag) = of_option (from_model x j (record tr { agreement = ag }) false)

  unfoldable pub acquired : TransferRow → db.Db → Outcome (Unit {0}) (Request x)
  unfolding joined
  acquired tr d = joined tr (db.select_agreement tr.agreement_id d)

  unfoldable pub after_lock : (again : db.Db → Read) → Scanned TransferRow × db.Db → Read
  unfolding acquired
  after_lock again (no_rows, d) = again (db.sleep d)
  after_lock again (failed, d) = (err tt, d)
  after_lock again (row tr, d) = (acquired tr d, d)

  -- The loop of `getTransferLocked`.
  unfoldable pub acquire : (attempts : ℕ) → List Condition → db.Db → Read
  unfolding after_lock
  acquire zero q d = (err tt, d)
  acquire (suc n) q d = after_lock (λ e. acquire n q e) (db.lock q d)

  -- The loop runs `p.lockTimeout` times, a second apart.
  unfoldable pub acquire_free : (lock_timeout : ℕ) → Option (List Condition) → db.Db → Read
  unfolding acquire
  acquire_free lock_timeout none d = (panicked, d)
  acquire_free lock_timeout (some free) d = acquire lock_timeout free d

  unfoldable pub if_unique : Option ℕ → Read → db.Db → Read
  if_unique none r d = (err tt, d)
  if_unique (some n) r d = if nat_eq n 1 then r else (err tt, d)

  unfoldable pub where_free : (lock_timeout : ℕ) → Params x → Option (List Condition) → db.Db → Read
  unfolding acquire_free if_unique where_group
  where_free lock_timeout params none d = (panicked, d)
  where_free lock_timeout params (some q) d =
      if_unique (db.count q d) (acquire_free lock_timeout (where_group x params (some false)) d) d

  unfoldable pub get_transfer_locked : (lock_timeout : ℕ) → Params x → db.Db → Read
  unfolding where_free
  get_transfer_locked lock_timeout params d =
      where_free lock_timeout params (where_group x params none) d

  unfoldable pub selected : Scanned TransferRow → Outcome (Unit {0}) (Request x)
  selected (row tr) = of_option (from_model x j tr true)
  selected no_rows = err tt
  selected failed = err tt

  unfoldable pub select_where : Option (List Condition) → db.Db → Read
  unfolding selected
  select_where none d = (panicked, d)
  select_where (some q) d = (selected (db.select q d), d)

  -- `GetTransfer`
  unfoldable pub get_transfer : (lock_timeout : ℕ) → Params x → db.Db → Read
  unfolding get_transfer_locked select_where
  get_transfer lock_timeout params d =
      if params.rw
      then get_transfer_locked lock_timeout params d
      else select_where (where_group x params none) d

  -- The first row that cannot be converted ends the loop.
  unfoldable pub cons_request :
      Option (Request x)
      → Outcome (Unit {0}) (List (Request x))
      → Outcome (Unit {0}) (List (Request x))
  cons_request none rest = err tt
  cons_request (some tr) (ok trs) = ok (tr ∷ trs)
  cons_request (some tr) (err e) = err e
  cons_request (some tr) panicked = panicked

  unfoldable pub converted : List TransferRow → Outcome (Unit {0}) (List (Request x))
  unfolding cons_request
  converted [] = ok []
  converted (r ∷ rs) = cons_request (from_model x j r true) (converted rs)

  unfoldable pub all_converted : Option (List TransferRow) → Outcome (Unit {0}) (List (Request x))
  unfolding converted
  all_converted none = err tt
  all_converted (some rs) = converted rs

  unfoldable pub select_all_where : Option (List Condition) → db.Db → ReadAll
  unfolding all_converted
  select_all_where none d = (panicked, d)
  select_all_where (some q) d = (all_converted (db.select_all q d), d)

  -- `GetTransfers`, which reads no transfers for writing.
  unfoldable pub get_transfers : Params x → db.Db → ReadAll
  unfolding select_all_where
  get_transfers params d =
      if params.rw then (err tt, d) else select_all_where (where_group x params none) d

  unfoldable pub executed : Bool × db.Db → Done
  executed (true, d) = (ok tt, d)
  executed (false, d) = (err tt, d)

  unfoldable pub release_row : Outcome (Unit {0}) TransferRow → db.Db → Done
  unfolding executed
  release_row (ok r) d = executed (db.unlock r.id d)
  release_row (err _) d = (err tt, d)
  release_row panicked d = (panicked, d)

  -- `ReleaseTransfer`
  unfoldable pub release_transfer : Request x → db.Db → Done
  unfolding release_row
  release_transfer req d = release_row (to_model x j req) d

  unfoldable pub put_row : Outcome (Unit {0}) TransferRow → db.Db → Done
  unfolding executed
  put_row (ok r) d = executed (db.upsert r d)
  put_row (err _) d = (err tt, d)
  put_row panicked d = (panicked, d)

  -- `PutTransfer`
  unfoldable pub put_transfer : Request x → db.Db → Done
  unfolding release_transfer put_row
  put_transfer req d =
      if req.ro
      then (panicked, d)
      else if req.modified
      then put_row (to_model x j req) d
      else release_transfer req d
