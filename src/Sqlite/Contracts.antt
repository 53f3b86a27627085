-- ===== src/Sqlite/Contracts.antt =====
-- dsp/persistence/backends/sqlite/contract_saver.go: reading a negotiation, for writing or not, storing it
-- and releasing it. The texts of the errors are left out.
use run_dsp.Prelude.{
  ℕ, zero, suc, String, Bool, true, false, Option, none, some, List, [], ◌∷◌, if◌then◌else◌, nat_eq,
}
use run_dsp.Exec.{Outcome, ok, err, panicked}
use run_dsp.Extern.{Extern}
use run_dsp.Json.{Json}
use run_dsp.Contract.Model.{ContractRow, AgreementRow, from_model, to_model}
use run_dsp.Contract.Negotiation.{Negotiation}
use run_dsp.Sqlite.Query.{Condition, Params, where_group}
use run_dsp.Sqlite.Database.{Database, Scanned, no_rows, failed, row}

abbrev pub of_option {ℓ} : {A : Type ℓ} → Option A → Outcome (Unit {0}) A
of_option none = err tt
of_option (some a) = ok a

module _ (x : Extern) (j : Json x) (db : Database) where
  abbrev pub Read : Type 0
  Read = Outcome (Unit {0}) (Negotiation x) × db.Db

  abbrev pub Done : Type 0
  Done = Outcome (Unit {0}) (Unit {0}) × db.Db

  -- A row that has just been locked, with its agreement.
  unfoldable pub joined : ContractRow → Option AgreementRow → Outcome (Unit {0}) (Negotiation x)
  joined cn none = err tt
  joined cn (some ag) = of_option (from_model x j (record cn { agreement = some ag }) false)

  unfoldable pub with_agreement :
      ContractRow → (id : Option String) → db.Db → Outcome (Unit {0}) (Negotiation x)
  unfolding joined
  with_agreement cn none d = of_option (from_model x j cn false)
  with_agreement cn (some id) d = joined cn (db.select_agreement id d)

  abbrev pub acquired : ContractRow → db.Db → Outcome (Unit {0}) (Negotiation x)
  acquired cn d = with_agreement cn cn.agreement_id d

  unfoldable pub after_lock : (again : db.Db → Read) → Scanned ContractRow × db.Db → Read
  after_lock again (no_rows, d) = again (db.sleep d)
  after_lock again (failed, d) = (err tt, d)
  after_lock again (row cn, d) = (acquired cn d, d)

  -- The loop of `getContractLocked`.
  unfoldable pub acquire : (attempts : ℕ) → List Condition → db.Db → Read
  unfolding after_lock
  acquire zero q d = (err tt, d)
  acquire (suc n) q d = after_lock (λ e. acquire n q e) (db.lock q d)

  -- The loop runs `p.lockTimeout` times, a second apart.
  unfoldable pub acquire_free : (lock_timeout : ℕ) → Option (List Condition) → db.Db → Read
  unfolding acquire
  acquire_free lock_timeout none d = (panicked, d)
  acquire_free lock_timeout (some free) d = acquire lock_timeout free d

  unfoldable pub if_unique : Option ℕ → Read → db.Db → Read
  if_unique none r d = (err tt, d)
  if_unique (some n) r d = if nat_eq n 1 then r else (err tt, d)

  unfoldable pub where_free : (lock_timeout : ℕ) → Params x → Option (List Condition) → db.Db → Read
  unfolding acquire_free if_unique where_group
  where_free lock_timeout params none d = (panicked, d)
  where_free lock_timeout params (some q) d =
      if_unique (db.count q d) (acquire_free lock_timeout (where_group x params (some false)) d) d

  unfoldable pub get_contract_locked : (lock_timeout : ℕ) → Params x → db.Db → Read
  unfolding where_free
  get_contract_locked lock_timeout params d =
      where_free lock_timeout params (where_group x params none) d

  abbrev selected : Scanned ContractRow → Outcome (Unit {0}) (Negotiation x)
  selected (row cn) = of_option (from_model x j cn true)
  selected _ = err tt

  -- `GetContract`
  unfoldable pub get_contract : (lock_timeout : ℕ) → Params x → db.Db → Read
  unfolding get_contract_locked where_group
  get_contract lock_timeout params d =
      if params.rw
      then get_contract_locked lock_timeout params d
      else (elim (where_group x params none) [
        | none ↦ (panicked, d)
        | some q ↦ (selected (db.select q d), d)
      ])

  -- The first row that cannot be converted ends the loop.
  unfoldable pub cons_negotiation :
      Option (Negotiation x)
      → Outcome (Unit {0}) (List (Negotiation x))
      → Outcome (Unit {0}) (List (Negotiation x))
  cons_negotiation none rest = err tt
  cons_negotiation (some cn) (ok cns) = ok (cn ∷ cns)
  cons_negotiation (some cn) (err e) = err e
  cons_negotiation (some cn) panicked = panicked

  unfoldable pub converted : List ContractRow → Outcome (Unit {0}) (List (Negotiation x))
  unfolding cons_negotiation
  converted [] = ok []
  converted (r ∷ rs) = cons_negotiation (from_model x j r true) (converted rs)

  unfoldable pub all_converted :
      Option (List ContractRow) → Outcome (Unit {0}) (List (Negotiation x))
  unfolding converted
  all_converted none = err tt
  all_converted (some rs) = converted rs

  unfoldable pub select_all_where :
      Option (List Condition) → db.Db → Outcome (Unit {0}) (List (Negotiation x)) × db.Db
  unfolding all_converted
  select_all_where none d = (panicked, d)
  select_all_where (some q) d = (all_converted (db.select_all q d), d)

  -- `GetContracts`, which reads no negotiations for writing.
  unfoldable pub get_contracts :
      Params x → db.Db → Outcome (Unit {0}) (List (Negotiation x)) × db.Db
  unfolding select_all_where where_group
  get_contracts params d =
      if params.rw then (err tt, d) else select_all_where (where_group x params none) d

  abbrev pub executed : Bool × db.Db → Done
  executed (true, d) = (ok tt, d)
  executed (false, d) = (err tt, d)

  unfoldable pub release_row : Outcome (Unit {0}) ContractRow → db.Db → Done
  release_row (ok r) d = executed (db.unlock r.id d)
  release_row (err _) d = (err tt, d)
  release_row panicked d = (panicked, d)

  -- `ReleaseContract`
  unfoldable pub release_contract : Negotiation x → db.Db → Done
  unfolding release_row
  release_contract cn d = release_row (to_model x j cn) d

  unfoldable pub put_row : Outcome (Unit {0}) ContractRow → db.Db → Done
  put_row (ok r) d = executed (db.upsert r d)
  put_row (err _) d = (err tt, d)
  put_row panicked d = (panicked, d)

  -- `PutContract`
  unfoldable pub put_contract : Negotiation x → db.Db → Done
  unfolding release_contract put_row
  put_contract cn d =
      if cn.ro
      then (panicked, d)
      else if cn.modified
      then put_row (to_model x j cn) d
      else release_contract cn d
