-- ===== src/Examples/Rows.antt =====
-- A database that meets its laws, with a table that has room for one row, and one agreement; and the
-- theorems on the lock of a negotiation at concrete inputs.
use run_dsp.Prelude.{
  ℕ, ◌≡◌, refl, Bool, true, false, Option, none, some, List, [], ◌∷◌, arith, nat_eq, if◌then◌else◌,
  str_eq,
}
use run_dsp.Exec.{ok, err}
use run_dsp.Role.{role_string}
use run_dsp.Contract.Model.{ContractRow}
use run_dsp.Contract.Negotiation.{Negotiation}
use run_dsp.Sqlite.Query.{Condition, has_provider_pid, Params, no_params, where_group}
use run_dsp.Sqlite.Database.{Database, IsDatabase, Locked, Scanned, no_rows, failed, row, all_hold}
use run_dsp.Sqlite.Contracts.{get_contract_locked, put_contract, with_agreement, joined}
use run_dsp.Sqlite.Locking.{
  Acquires, AllLocked, get_contract_locked-Acquires, get_contract_locked-AllLocked,
}
use run_dsp.Sqlite.Releasing.{IsFree, put_contract-IsFree}
use run_dsp.Sqlite.RoundTrip.{as_read, put_contract-get_contract_locked}
use run_dsp.Examples.World.{world, world-IsLawful, unary, read_unary}
use run_dsp.Examples.Storing.{
  json, json-IsJson, row as stored_row, writes_changed_row, reads_row, with_agreement as agreed,
  agreement_row, signed_row, writes_agreement_row,
}
use run_dsp.Examples.AgreementText.{agreement_on}

unfoldable count : List Condition → Option ContractRow → Option ℕ
count q none = some 0
count q (some r) = some (if all_hold q r then 1 else 0)

unfoldable select : List Condition → Option ContractRow → Scanned ContractRow
select q none = no_rows
select q (some r) = if all_hold q r then row r else no_rows

unfoldable lock : List Condition → Option ContractRow → Scanned ContractRow × Option ContractRow
lock q none = (no_rows, none)
lock q (some r) =
    let taken = record r { locked = true; agreement = none } in
    if all_hold q r then (row taken, some taken) else (no_rows, some r)

unfoldable upsert : ContractRow → Option ContractRow → Bool × Option ContractRow
upsert w none = (true, some (record w { agreement = none }))
upsert w (some r) =
    if nat_eq r.id w.id
    then (true, some (record w { role = r.role; agreement = none }))
    else (false, some r)

unfoldable unlock : (id : ℕ) → Option ContractRow → Bool × Option ContractRow
unlock id none = (true, none)
unlock id (some r) =
    if nat_eq r.id id then (true, some (record r { locked = false })) else (true, some r)

unfoldable row_of : Option ContractRow → (id : ℕ) → Option ContractRow
row_of none id = none
row_of (some r) id = if nat_eq r.id id then some r else none

abbrev database : Database
database = record {
  Db = Option ContractRow;
  count = count;
  select = select;
  select_all = λ q d. none;
  select_agreement = λ id d. if str_eq id "xxx" then some agreement_row else none;
  lock = lock;
  upsert = upsert;
  unlock = unlock;
  sleep = λ d. d;
  row_of = row_of;
}

lock-Locked :
    (q : List Condition) (d : Option ContractRow) {r : ContractRow} {e : Option ContractRow}
    → lock q d ≡ (row r, e)
    → Locked database q d r e
unfolding lock row_of
lock-Locked q none h = cc
lock-Locked q (some before) {r = r} {e = e} h = record {
  before = before;
  found = ground arith;
  met = ground arith;
  same = ground arith;
  kept = ground arith;
}

lock-unchanged :
    (q : List Condition) (d : Option ContractRow) (s : Scanned ContractRow) {e : Option ContractRow}
    → lock q d ≡ (s, e)
    → ((r : ContractRow) → s ≡ row r → ⊥)
    → e ≡ d
unfolding lock
lock-unchanged q none s h n = cc
lock-unchanged q (some r) no_rows h n = ground arith
lock-unchanged q (some r) failed h n = ground arith
lock-unchanged q (some r) (row s) h n = absurd (n s refl)

unlock-row_of :
    (id : ℕ) (d : Option ContractRow) {r : ContractRow} {e : Option ContractRow}
    → unlock id d ≡ (true, e)
    → row_of d id ≡ some r
    → row_of e id ≡ some (record r { locked = false })
unfolding unlock row_of
unlock-row_of id none h f = cc
unlock-row_of id (some s) h f = ground arith

upsert-row_of :
    (r : ContractRow) (d : Option ContractRow) {s : ContractRow} {e : Option ContractRow}
    → upsert r d ≡ (true, e)
    → row_of d r.id ≡ some s
    → row_of e r.id ≡ some (record r { role = s.role; agreement = none })
unfolding upsert row_of
upsert-row_of r none h f = cc
upsert-row_of r (some s) h f = ground arith

database-IsDatabase : IsDatabase database
database-IsDatabase = record {
  lock-row = lock-Locked;
  lock-no_rows = λ q d h. lock-unchanged q d no_rows h (λ r e. cc);
  lock-failed = λ q d h. lock-unchanged q d failed h (λ r e. cc);
  row_of-unlock = unlock-row_of;
  row_of-upsert = upsert-row_of;
}

abbrev by_provider_pid : Params world
by_provider_pid = record (no_params world) { provider_pid = some 1 }

abbrev held_row : ContractRow
held_row = record stored_row { locked = true }

-- The row of the provider's negotiation is free.
get_contract_locked-Acquires_example :
    Acquires world database 60
      (some stored_row)
      (get_contract_locked world json database 60 by_provider_pid (some stored_row))
get_contract_locked-Acquires_example =
    get_contract_locked-Acquires world json database database-IsDatabase 60 by_provider_pid
      (some stored_row)

all_locked : (q : List Condition) → AllLocked database q (some held_row)
unfolding row_of
all_locked q = record { locked = λ id f m. ground arith }

get_contract_locked-AllLocked_example :
    get_contract_locked world json database 60 by_provider_pid (some held_row)
    ≡ (err tt, some held_row)
unfolding where_group
get_contract_locked-AllLocked_example =
    get_contract_locked-AllLocked world json database database-IsDatabase 60 by_provider_pid
      (some held_row) {q = has_provider_pid (unary 1) ∷ []} refl (all_locked _) refl

abbrev changed : Negotiation world
changed = record agreed { modified = true }

writes_changed : put_contract world json database changed (some held_row) ≡ (ok tt, some signed_row)
unfolding put_contract upsert
writes_changed = rw writes_changed_row refl

put_contract-IsFree_example : IsFree database 1 (some signed_row)
unfolding row_of
put_contract-IsFree_example =
    put_contract-IsFree world json database database-IsDatabase changed (some held_row)
      {s = held_row} refl writes_changed

reads_changed :
    get_contract_locked world json database 1 by_provider_pid (some signed_row)
    ≡ (ok (as_read world json changed), some (record signed_row { locked = true }))
unfolding get_contract_locked where_group count lock unary read_unary with_agreement joined
    agreement_on
reads_changed = rw reads_row refl

put_contract-get_contract_locked_example : as_read world json changed ≡ record agreed {
  agreement = some (agreement_on "urn:uuid:7");
  modified = false;
  initial = false;
  new_agreement = false;
  ro = false;
  locked = true;
}
unfolding row_of role_string agreement_on
put_contract-get_contract_locked_example =
    put_contract-get_contract_locked world world-IsLawful json json-IsJson database
      database-IsDatabase (λ d id. refl) changed (some held_row) 1 by_provider_pid {s = held_row}
      {next = as_read world json changed} refl refl refl writes_changed reads_changed refl
      (agreement_row, refl, writes_agreement_row)
