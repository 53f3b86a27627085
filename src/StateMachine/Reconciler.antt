-- ===== src/StateMachine/Reconciler.antt =====
-- dsp/statemachine/reconciler.go: the queue of the reconciler, its attempts, and when it gives up.
-- The manager and the one worker are two kinds of steps; an operation that the manager sends over the
-- unbuffered channel is `handed` to the worker.
use Prim.Native.Nat.{◌/◌}
use run_dsp.Prelude.{
  ℕ, suc, zero, ◌+◌, ◌*◌, Bool, false, ◌||◌, Option, none, some, List, [], ◌∷◌, ◌++◌, leb, ltb,
  nat_eq, if◌then◌else◌,
}
use run_dsp.Exec.{Outcome, ok, err, panicked}
use run_dsp.Extern.{Extern}
use run_dsp.StateMachine.Env.{ReconciliationEntry}
use run_dsp.StateMachine.Updater.{
  World, Record, sent, Log, Reply, failed, answered, Error, request_failed, rollback, commit,
  get_state_updater, apply_response,
}

abbrev pub max_attempts : ℕ
max_attempts = 50

-- `maxDuration` and `initialRetry`, in nanoseconds.
abbrev pub max_duration : ℕ
max_duration = 60000000000

abbrev initial_retry : ℕ
initial_retry = 500000000

-- `reconciliationOperation`
pub record Operation (x : Extern) : Type 0 where
  pub submitted : ℕ
  pub next_attempt : ℕ
  pub attempts : ℕ
  pub entry : ReconciliationEntry x
  pub current_interval : ℕ

pub record Reconciler (x : Extern) : Type 0 where
  pub queue : List (Operation x)
  pub handed : Option (Operation x)
  pub log : Log x

abbrev pub is_fatal : Error → Bool
is_fatal (request_failed fatal) = fatal
is_fatal _ = false

module _ (x : Extern) (w : World x) where
  -- A step of the reconciler, and how its goroutine goes on: `panicked` ends the program.
  abbrev pub Step : Type 0
  Step = Reconciler x → Outcome Error (Unit {0}) × Reconciler x

  abbrev pub in_log :
      {A : Type 0}
      → (Log x → Outcome Error A × Log x)
      → Reconciler x
      → Outcome Error A × Reconciler x
  in_log m s = let (r, l) = m s.log in (r, record s { log = l })

  -- Both readings of the clock are taken to be the same.
  unfoldable pub add : ReconciliationEntry x → Reconciler x → Reconciler x
  add e s = record s {
    queue =
        s.queue
        ++ record {
          submitted = w.now s.log;
          next_attempt = w.now s.log;
          attempts = 0;
          entry = e;
          current_interval = initial_retry;
        }
          ∷ [];
  }

  -- A deferred `Rollback`: it runs however the function ends.
  unfoldable pub deferred :
      Record x → Outcome Error (Unit {0}) × Log x → Outcome Error (Unit {0}) × Log x
  deferred r (o, l) = (o, rollback x w r l)

  unfoldable pub commit_or_rollback :
      Record x → Outcome Error (Unit {0}) × Log x → Outcome Error (Unit {0}) × Log x
  unfolding deferred
  commit_or_rollback r (ok _, l) = (ok tt, l)
  commit_or_rollback r (err e, l) = deferred r (err e, l)
  commit_or_rollback r (panicked, l) = deferred r (panicked, l)

  unfoldable pub terminate_record :
      Outcome Error (Record x) × Log x → Outcome Error (Unit {0}) × Log x
  unfolding commit_or_rollback
  terminate_record (ok r, l) = commit_or_rollback r (commit x w r l)
  terminate_record (err e, l) = (err e, l)
  terminate_record (panicked, l) = (panicked, l)

  unfoldable pub terminate_attempt :
      ReconciliationEntry x → Log x → Outcome Error (Unit {0}) × Log x
  unfolding terminate_record
  terminate_attempt e l = terminate_record (get_state_updater x w e l)

  -- An attempt, and those that follow it when it has failed.
  unfoldable pub retry :
      Outcome Error (Unit {0}) × Log x
      → Outcome Error (Unit {0}) × Log x
      → Outcome Error (Unit {0}) × Log x
  retry (ok _, l) rest = (ok tt, l)
  retry (err _, l) rest = rest
  retry (panicked, l) rest = (panicked, l)

  -- The loop of `terminate`, which panics after its last attempt.
  unfoldable pub terminate_within :
      ℕ → ReconciliationEntry x → Log x → Outcome Error (Unit {0}) × Log x
  unfolding retry
  terminate_within zero e l = (panicked, l)
  terminate_within (suc n) e l =
      let (o, l') = terminate_attempt e l in
      let rest = terminate_within n e l' in retry (o, l') rest

  unfoldable pub terminate : ReconciliationEntry x → Log x → Outcome Error (Unit {0}) × Log x
  terminate e l = terminate_within 10 e l

  -- The interval of `calculateNextAttempt`; `multiplier` is 1.5.
  unfoldable pub next_interval : (current attempts : ℕ) → ℕ
  next_interval current attempts = if nat_eq attempts 1 then current else (current * 3) / 2

  unfoldable pub calculate_next_attempt : Operation x → Log x → Operation x
  unfolding next_interval
  calculate_next_attempt op l =
      let interval = next_interval op.current_interval op.attempts in
      record op { next_attempt = w.now l + w.draw l interval; current_interval = interval }

  -- The error that `handleError` logs only decides whether the operation is terminated.
  unfoldable pub handle_error : Operation x → Error → Step
  handle_error op e s =
      let next = calculate_next_attempt op s.log in
      if is_fatal e || leb max_attempts op.attempts
      then in_log (terminate op.entry) s
      else if ltb (next.submitted + max_duration) next.next_attempt
      then in_log (terminate op.entry) s
      else (ok tt, record s { queue = s.queue ++ next ∷ [] })

  -- `handleError`, then the deferred `Rollback`.
  unfoldable pub handle_and_release : Operation x → Error → Record x → Step
  unfolding handle_error
  handle_and_release op e r s =
      let (o, s') = handle_error op e s in (o, record s' { log = rollback x w r s'.log })

  unfoldable pub save : Operation x → Record x → Outcome Error (Unit {0}) × Log x → Step
  unfolding handle_and_release
  save op r (ok _, l) s = (ok tt, record s { log = l })
  save op r (err e, l) s = handle_and_release op e r (record s { log = l })
  save op r (panicked, l) s = (panicked, record s { log = rollback x w r l })

  -- From the answer of the other party on.
  unfoldable pub take_reply : Operation x → Record x → Reply → Step
  unfolding save
  take_reply op r (failed fatal) s = handle_and_release op (request_failed fatal) r s
  take_reply op r (answered body) s =
      let (o, r') = apply_response x w body r in
      let rest = save op r' (commit x w r' s.log) s in
      elim o [ panicked ↦ (panicked, record s { log = rollback x w r' s.log }) | _ ↦ rest ]

  unfoldable pub attempt : Operation x → Outcome Error (Record x) × Log x → Step
  unfolding take_reply
  attempt op (ok r, l) s =
      take_reply op r (w.send_http_request l op.entry) (record s { log = sent op.entry ∷ l })
  attempt op (err e, l) s = handle_error op e (record s { log = l })
  attempt op (panicked, l) s = (panicked, record s { log = l })

  unfoldable pub reconcile_entry : Operation x → Step
  unfolding attempt
  reconcile_entry op s = attempt op (get_state_updater x w op.entry s.log) s

  -- A tick of the manager: the first operation is handed over when it is due, and else goes to the end.
  unfoldable pub tick_queue : List (Operation x) → Reconciler x → Reconciler x
  tick_queue [] s = s
  tick_queue (op ∷ q) s =
      if ltb op.next_attempt (w.now s.log)
      then record s { queue = q; handed = some (record op { attempts = op.attempts + 1 }) }
      else record s { queue = q ++ op ∷ [] }

  unfoldable pub manager : Reconciler x → Reconciler x
  unfolding tick_queue
  manager s = tick_queue s.queue s

  -- The worker takes the operation from the channel, and reconciles it.
  unfoldable pub take_operation : Option (Operation x) → Step
  take_operation none s = (ok tt, s)
  take_operation (some op) s = reconcile_entry op (record s { handed = none })

  unfoldable pub worker : Step
  unfolding take_operation
  worker s = take_operation s.handed s
