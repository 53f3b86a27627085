-- ===== src/StateMachine/Locks.antt =====
-- dsp/statemachine/reconciler.go: the lock of the record that an operation is about.
use native.Mathlib.Omega.{arith}
use run_dsp.Prelude.{
  ℕ, zero, suc, ◌≡◌, refl, Bool, true, false, Option, none, some, [], ◌∷◌, if◌then◌else◌,
}
use run_dsp.Exec.{Outcome, ok, err, panicked, Survives}
use run_dsp.Extern.{Extern}
use run_dsp.Role.{DataspaceRole}
use run_dsp.Contract.Negotiation.{Negotiation, set_state}
use run_dsp.Contract.State.{State, of_string, parse_state as parse_contract_state}
use run_dsp.Transfer.State.{State as TransferState, parse_state as parse_transfer_state}
use run_dsp.Transfer.Request.{Request, set_state as set_request_state}
use run_dsp.StateMachine.Env.{ReconciliationEntry}
use run_dsp.StateMachine.Updater.{
  World, Record, locked, refused, saved, released, sent, Log, Reply, failed, answered, Error,
  cannot_save, rollback, commit, get_state_updater, apply_response, new_negotiation_updater,
  new_request_updater, update_to, found_negotiation, found_request,
}
use run_dsp.StateMachine.Reconciler.{
  Operation, Reconciler, terminate_attempt, terminate_within, retry, terminate, handle_error,
  reconcile_entry, commit_or_rollback, terminate_record, handle_and_release, save, take_reply,
  attempt, deferred,
}

-- After these calls the record is locked: it was read for writing, and neither saved nor released with
-- success since.
abbrev pub is_held : {x : Extern} → Log x → Bool
is_held [] = false
is_held (locked r ∷ l) = true
is_held (refused ∷ l) = is_held l
is_held (saved r done ∷ l) = if done then false else is_held l
is_held (released r done ∷ l) = if done then false else is_held l
is_held (sent e ∷ l) = is_held l

-- A store that gives out records for writing, and can release them.
pub record Serves (x : Extern) (w : World x) : Type 0 where
  pub releases : (l : Log x) (r : Record x) → w.release l r ≡ true
  pub writable_contract :
      (l : Log x) (u : x.Uuid) (d : DataspaceRole) (cn : Negotiation x)
      → w.get_contract l u d ≡ some cn
      → cn.ro ≡ false
  pub writable_transfer :
      (l : Log x) (u : x.Uuid) (d : DataspaceRole) (tr : Request x)
      → w.get_transfer l u d ≡ some tr
      → tr.ro ≡ false

-- Unless there is a result, the record is not locked.
abbrev FailsFree : {x : Extern} {A : Type 0} → Outcome Error A × Log x → Type 0
FailsFree (ok _, l) = Unit
FailsFree (err _, l) = is_held l ≡ false
FailsFree (panicked, l) = is_held l ≡ false

-- Whatever the outcome, the record is not locked.
abbrev IsFree : {x : Extern} {A : Type 0} → Outcome Error A × Log x → Type 0
IsFree r = is_held r.1 ≡ false

module _ (x : Extern) (w : World x) (serves : Serves x w) where
  set_state-Survives :
      (t : State) (cn : Negotiation x) → cn.ro ≡ false → Survives (set_state x t cn).0
  unfolding set_state
  set_state-Survives t cn h = ground arith

  set_request_state-Survives :
      (t : TransferState) (tr : Request x) → tr.ro ≡ false → Survives (set_request_state x t tr).0
  unfolding set_request_state
  set_request_state-Survives t tr h = ground arith

  rollback-is_held : (r : Record x) (l : Log x) → is_held (rollback x w r l) ≡ false
  unfolding rollback
  rollback-is_held r l = rw (serves.releases l r) refl

  update_to-FailsFree :
      {E : Type 0} (old : Record x) (o : Outcome E (Unit {0}) × Record x) (l : Log x)
      → Survives o.0
      → FailsFree (update_to x w old o l)
  unfolding update_to
  update_to-FailsFree old (ok _, r) l h = tt
  update_to-FailsFree old (err e, r) l h = rollback-is_held r (locked old ∷ l)
  update_to-FailsFree old (panicked, r) l h = absurd h

  found_negotiation-FailsFree :
      (t : State) (o : Option (Negotiation x)) (l : Log x)
      → is_held l ≡ false
      → ((cn : Negotiation x) → o ≡ some cn → cn.ro ≡ false)
      → FailsFree (found_negotiation x w t o l)
  unfolding found_negotiation
  found_negotiation-FailsFree t none l h k = h
  found_negotiation-FailsFree t (some cn) l h k =
      update_to-FailsFree _ _ l (set_state-Survives t cn (k cn refl))

  found_request-FailsFree :
      (t : TransferState) (o : Option (Request x)) (l : Log x)
      → is_held l ≡ false
      → ((tr : Request x) → o ≡ some tr → tr.ro ≡ false)
      → FailsFree (found_request x w t o l)
  unfolding found_request
  found_request-FailsFree t none l h k = h
  found_request-FailsFree t (some tr) l h k =
      update_to-FailsFree _ _ l (set_request_state-Survives t tr (k tr refl))

  new_negotiation_updater-FailsFree :
      (e : ReconciliationEntry x) (l : Log x)
      → is_held l ≡ false
      → FailsFree (new_negotiation_updater x w e l)
  unfolding new_negotiation_updater
  new_negotiation_updater-FailsFree e l h = ground (
    arith,
    found_negotiation-FailsFree (parse_contract_state (of_string e.target_state))
        (w.get_contract l e.entity_id e.role) l h (serves.writable_contract l e.entity_id e.role),
  )

  new_request_updater-FailsFree :
      (e : ReconciliationEntry x) (l : Log x)
      → is_held l ≡ false
      → FailsFree (new_request_updater x w e l)
  unfolding new_request_updater
  new_request_updater-FailsFree e l h = ground (
    arith,
    found_request-FailsFree (parse_transfer_state e.target_state)
        (w.get_transfer l e.entity_id e.role) l h (serves.writable_transfer l e.entity_id e.role),
  )

  get_state_updater-FailsFree :
      (e : ReconciliationEntry x) (l : Log x)
      → is_held l ≡ false
      → FailsFree (get_state_updater x w e l)
  unfolding get_state_updater
  get_state_updater-FailsFree e l h =
      ground (arith, new_negotiation_updater-FailsFree e l h, new_request_updater-FailsFree e l h)

  commit_or_rollback-IsFree :
      (r : Record x) (l : Log x) → IsFree (commit_or_rollback x w r (commit x w r l))
  unfolding commit_or_rollback commit deferred
  commit_or_rollback-IsFree r l =
      ground (arith, rollback-is_held r (saved r true ∷ l), rollback-is_held r (saved r false ∷ l))

  terminate_record-IsFree :
      (r : Outcome Error (Record x) × Log x) → FailsFree r → IsFree (terminate_record x w r)
  unfolding terminate_record
  terminate_record-IsFree (ok r, l) h = commit_or_rollback-IsFree r l
  terminate_record-IsFree (err e, l) h = h
  terminate_record-IsFree (panicked, l) h = h

  terminate_attempt-IsFree :
      (e : ReconciliationEntry x) (l : Log x)
      → is_held l ≡ false
      → IsFree (terminate_attempt x w e l)
  unfolding terminate_attempt
  terminate_attempt-IsFree e l h =
      terminate_record-IsFree (get_state_updater x w e l) (get_state_updater-FailsFree e l h)

  retry-IsFree :
      (r rest : Outcome Error (Unit {0}) × Log x)
      → IsFree r
      → IsFree rest
      → IsFree (retry x w r rest)
  unfolding retry
  retry-IsFree (ok _, l) rest h k = h
  retry-IsFree (err e, l) rest h k = k
  retry-IsFree (panicked, l) rest h k = h

  terminate_within-IsFree :
      (n : ℕ) (e : ReconciliationEntry x) (l : Log x)
      → is_held l ≡ false
      → IsFree (terminate_within x w n e l)
  unfolding terminate_within
  terminate_within-IsFree zero e l h = h
  terminate_within-IsFree (suc n) e l h =
      let k = terminate_attempt-IsFree e l h in
      retry-IsFree (terminate_attempt x w e l) _ k
        (terminate_within-IsFree n e (terminate_attempt x w e l).1 k)

  handle_error-is_held :
      (op : Operation x) (e : Error) (s : Reconciler x)
      → is_held s.log ≡ false
      → is_held (handle_error x w op e s).1.log ≡ false
  unfolding handle_error terminate
  handle_error-is_held op e s h = ground (arith, terminate_within-IsFree 10 op.entry s.log h)

  save-is_held :
      (op : Operation x) (r : Record x) (s : Reconciler x)
      → is_held (save x w op r (commit x w r s.log) s).1.log ≡ false
  unfolding save commit handle_and_release
  save-is_held op r s = ground (
    arith,
    rollback-is_held r (saved r true ∷ s.log),
    rollback-is_held r
        (handle_error x w op cannot_save (record s { log = saved r false ∷ s.log })).1.log,
  )

  take_reply-is_held :
      (op : Operation x) (r : Record x) (a : Reply) (s : Reconciler x)
      → is_held (take_reply x w op r a s).1.log ≡ false
  unfolding take_reply handle_and_release
  take_reply-is_held op r (failed fatal) s = rollback-is_held r _
  take_reply-is_held op r (answered body) s = ground (
    arith,
    save-is_held op (apply_response x w body r).1 s,
    rollback-is_held (apply_response x w body r).1 s.log,
  )

  attempt-is_held :
      (op : Operation x) (r : Outcome Error (Record x) × Log x) (s : Reconciler x)
      → FailsFree r
      → is_held (attempt x w op r s).1.log ≡ false
  unfolding attempt
  attempt-is_held op (ok r, l) s h =
      take_reply-is_held op r (w.send_http_request l op.entry)
        (record s { log = sent op.entry ∷ l })
  attempt-is_held op (err e, l) s h = handle_error-is_held op e (record s { log = l }) h
  attempt-is_held op (panicked, l) s h = h

  -- However an operation ends, by success, by an error, given up or in a panic, its record is not
  -- locked afterwards, if it was not locked before, the store gives out writable records and every
  -- release succeeds.
  pub reconcile_entry-is_held :
      (op : Operation x) (s : Reconciler x)
      → is_held s.log ≡ false
      → is_held (reconcile_entry x w op s).1.log ≡ false
  unfolding reconcile_entry
  reconcile_entry-is_held op s h =
      attempt-is_held op (get_state_updater x w op.entry s.log) s
        (get_state_updater-FailsFree op.entry s.log h)
