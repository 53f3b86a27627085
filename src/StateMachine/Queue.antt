-- ===== src/StateMachine/Queue.antt =====
-- dsp/statemachine/reconciler.go: what the queue of the reconciler holds, and how often an operation
-- is tried.
use native.Mathlib.Omega.{arith}
use run_dsp.Prelude.{
  ◌+◌, ◌≤◌, ◌<◌, ◌≡◌, refl, ◌||◌, Option, none, some, List, [], ◌∷◌, ◌++◌, leb, ltb, Bool-cases,
  inl, inr,
}
use run_dsp.Exec.{Outcome, ok, err, panicked}
use run_dsp.Extern.{Extern}
use run_dsp.StateMachine.Env.{ReconciliationEntry}
use run_dsp.StateMachine.Updater.{
  World, Record, Log, Reply, failed, answered, Error, commit, get_state_updater, apply_response,
  rollback, request_failed,
}
use run_dsp.StateMachine.Reconciler.{
  Operation, Reconciler, add, manager, worker, take_operation, tick_queue, handle_error,
  reconcile_entry, handle_and_release, save, take_reply, attempt, max_attempts, max_duration,
  calculate_next_attempt, is_fatal,
}

-- An operation that may be tried once more.
abbrev pub IsQueued : {x : Extern} → Operation x → Type 0
IsQueued op = (op.attempts < max_attempts) × (op.next_attempt ≤ op.submitted + max_duration)

abbrev pub AllQueued : {x : Extern} → List (Operation x) → Type 0
AllQueued [] = Unit
AllQueued (op ∷ q) = IsQueued op × AllQueued q

abbrev HandedOver : {x : Extern} → Option (Operation x) → Type 0
HandedOver none = Unit
HandedOver (some op) = op.attempts ≤ max_attempts

pub record IsBounded (x : Extern) (s : Reconciler x) : Type 0 where
  pub queued : AllQueued s.queue
  pub handed : HandedOver s.handed

-- What happens to a reconciler: an entry is added, the manager's ticker fires while no operation waits
-- for the worker, or the worker takes an operation.
pub data Run (x : Extern) (w : World x) (s : Reconciler x) : Reconciler x → Type 0 where
  started : Run x w s s
  added : {t : Reconciler x} → Run x w s t → (e : ReconciliationEntry x) → Run x w s (add x w e t)
  ticked : {t : Reconciler x} → Run x w s t → t.handed ≡ none → Run x w s (manager x w t)
  worked : {t : Reconciler x} → Run x w s t → Run x w s (worker x w t).1

AllQueued-append :
    {x : Extern} (q r : List (Operation x)) → AllQueued q → AllQueued r → AllQueued (q ++ r)
AllQueued-append [] r h k = k
AllQueued-append (op ∷ q) r (h, hs) k = (h, AllQueued-append q r hs k)

-- A reconciler with a bounded queue, and with `h` handed over.
record Holds (x : Extern) (h : Option (Operation x)) (s : Reconciler x) : Type 0 where
  pub queued : AllQueued s.queue
  pub handed : s.handed ≡ h

module _ (x : Extern) (w : World x) (h : Option (Operation x)) where
  -- An operation goes back to the queue only if it may be tried once more.
  handle_error-Holds :
      (op : Operation x) (e : Error) (s : Reconciler x)
      → Holds x h s
      → Holds x h (handle_error x w op e s).1
  unfolding handle_error calculate_next_attempt
  handle_error-Holds op e s k =
      let next = calculate_next_attempt x w op s.log in
      elim (Bool-cases (is_fatal e || leb max_attempts op.attempts)) [
        | inl c ↦ rw c (record { queued = k.queued; handed = k.handed })
        | inr c ↦ elim (Bool-cases (ltb (next.submitted + max_duration) next.next_attempt)) [
          | inl d ↦ rw (c, d) (record { queued = k.queued; handed = k.handed })
          | inr d ↦
              rw (c, d)
                (record {
                  queued =
                      AllQueued-append s.queue (next ∷ []) k.queued
                        ((ground arith, ground arith), tt);
                  handed = k.handed;
                })
        ]
      ]

  logged-Holds : (l : Log x) (s : Reconciler x) → Holds x h s → Holds x h (record s { log = l })
  logged-Holds l s k = record { queued = k.queued; handed = k.handed }

  handle_and_release-Holds :
      (op : Operation x) (e : Error) (r : Record x) (s : Reconciler x)
      → Holds x h s
      → Holds x h (handle_and_release x w op e r s).1
  unfolding handle_and_release
  handle_and_release-Holds op e r s k = logged-Holds _ _ (handle_error-Holds op e s k)

  save-Holds :
      (op : Operation x) (r : Record x) (c : Outcome Error (Unit {0}) × Log x) (s : Reconciler x)
      → Holds x h s
      → Holds x h (save x w op r c s).1
  unfolding save
  save-Holds op r (ok _, l) s k = logged-Holds l s k
  save-Holds op r (err e, l) s k = handle_and_release-Holds op e r _ (logged-Holds l s k)
  save-Holds op r (panicked, l) s k = logged-Holds _ s k

  take_reply-Holds :
      (op : Operation x) (r : Record x) (a : Reply) (s : Reconciler x)
      → Holds x h s
      → Holds x h (take_reply x w op r a s).1
  unfolding take_reply
  take_reply-Holds op r (failed fatal) s k =
      handle_and_release-Holds op (request_failed fatal) r s k
  take_reply-Holds op r (answered body) s k =
      let r' = (apply_response x w body r).1 in
      ground (
        arith,
        save-Holds op r' (commit x w r' s.log) s k,
        logged-Holds (rollback x w r' s.log) s k,
      )

  attempt-Holds :
      (op : Operation x) (r : Outcome Error (Record x) × Log x) (s : Reconciler x)
      → Holds x h s
      → Holds x h (attempt x w op r s).1
  unfolding attempt
  attempt-Holds op (ok r, l) s k = take_reply-Holds op r _ _ (logged-Holds _ s k)
  attempt-Holds op (err e, l) s k = handle_error-Holds op e _ (logged-Holds l s k)
  attempt-Holds op (panicked, l) s k = logged-Holds l s k

module _ (x : Extern) (w : World x) where
  add-IsBounded :
      (e : ReconciliationEntry x) (s : Reconciler x) → IsBounded x s → IsBounded x (add x w e s)
  unfolding add
  add-IsBounded e s b = record {
    queued = AllQueued-append s.queue _ b.queued ((ground arith, ground arith), tt);
    handed = b.handed;
  }

  tick_queue-IsBounded :
      (q : List (Operation x)) (s : Reconciler x)
      → AllQueued q
      → IsBounded x s
      → IsBounded x (tick_queue x w q s)
  unfolding tick_queue
  tick_queue-IsBounded [] s k b = b
  tick_queue-IsBounded (op ∷ q) s (i, k) b = elim (Bool-cases (ltb op.next_attempt (w.now s.log))) [
    | inl d ↦ rw d (record { queued = k; handed = ground arith })
    | inr d ↦ rw d (record { queued = AllQueued-append q (op ∷ []) k (i, tt); handed = b.handed })
  ]

  take_operation-IsBounded :
      (o : Option (Operation x)) (s : Reconciler x)
      → IsBounded x s
      → IsBounded x (take_operation x w o s).1
  unfolding take_operation reconcile_entry
  take_operation-IsBounded none s b = b
  take_operation-IsBounded (some op) s b =
      let k =
        attempt-Holds x w none op (get_state_updater x w op.entry s.log)
          (record s { handed = none }) (record { queued = b.queued; handed = refl }) in
      record { queued = k.queued; handed = rw k.handed tt }

  -- Whatever entries are added, and however the manager's ticks and the worker's calls follow each
  -- other: if the queue is bounded at first, as an empty one is, then every operation in it has been
  -- tried less than 50 times and is due at most a minute after it was submitted, and an operation that is handed
  -- over to the worker is tried for the 50th time at most.
  pub Run-IsBounded : {s t : Reconciler x} → IsBounded x s → Run x w s t → IsBounded x t
  unfolding manager worker
  Run-IsBounded b started = b
  Run-IsBounded b (added r e) = add-IsBounded e _ (Run-IsBounded b r)
  Run-IsBounded b (ticked {t = t} r i) =
      tick_queue-IsBounded t.queue t (Run-IsBounded b r).queued (Run-IsBounded b r)
  Run-IsBounded b (worked {t = t} r) = take_operation-IsBounded t.handed t (Run-IsBounded b r)
