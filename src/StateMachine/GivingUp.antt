-- ===== src/StateMachine/GivingUp.antt =====
-- dsp/statemachine/reconciler.go: what happens to an operation that is given up.
use native.Mathlib.Omega.{arith}
use run_dsp.Prelude.{ℕ, zero, suc, ◌≤◌, ◌≡◌, refl, Bool, true, none, ◌∷◌}
use run_dsp.Exec.{Outcome, ok, err, panicked}
use run_dsp.Extern.{Extern}
use run_dsp.Role.{DataspaceRole}
use run_dsp.StateMachine.Env.{ReconciliationEntry}
use run_dsp.StateMachine.Locks.{is_held}
use run_dsp.StateMachine.Updater.{
  World, Record, sent, Log, failed, Error, request_failed, get_state_updater,
  new_negotiation_updater, new_request_updater, update_to, found_negotiation, found_request,
}
use run_dsp.StateMachine.Reconciler.{
  Operation, Reconciler, terminate_attempt, terminate_within, retry, terminate, handle_error,
  reconcile_entry, terminate_record, handle_and_release, take_reply, attempt, max_attempts,
}

-- A store that does not give out a locked record for writing.
abbrev pub Refuses : (x : Extern) → World x → Type 0
Refuses x w =
    (l : Log x) (u : x.Uuid) (d : DataspaceRole)
    → is_held l ≡ true
    → (w.get_contract l u d ≡ none) × (w.get_transfer l u d ≡ none)

-- The call has failed, and the record still is locked.
abbrev FailsHeld : {x : Extern} {A : Type 0} → Outcome Error A × Log x → Type 0
FailsHeld (ok _, l) = ⊥
FailsHeld (err _, l) = is_held l ≡ true
FailsHeld (panicked, l) = Unit

module _ (x : Extern) (w : World x) (refuses : Refuses x w) where
  get_state_updater-FailsHeld :
      (e : ReconciliationEntry x) (l : Log x)
      → is_held l ≡ true
      → FailsHeld (get_state_updater x w e l)
  unfolding get_state_updater new_negotiation_updater new_request_updater found_negotiation
      found_request
  get_state_updater-FailsHeld e l h = let (c, t) = refuses l e.entity_id e.role h in ground arith

  terminate_record-FailsHeld :
      (r : Outcome Error (Record x) × Log x) → FailsHeld r → FailsHeld (terminate_record x w r)
  unfolding terminate_record
  terminate_record-FailsHeld (ok r, l) h = absurd h
  terminate_record-FailsHeld (err e, l) h = h
  terminate_record-FailsHeld (panicked, l) h = h

  terminate_attempt-FailsHeld :
      (e : ReconciliationEntry x) (l : Log x)
      → is_held l ≡ true
      → FailsHeld (terminate_attempt x w e l)
  unfolding terminate_attempt
  terminate_attempt-FailsHeld e l h =
      terminate_record-FailsHeld (get_state_updater x w e l) (get_state_updater-FailsHeld e l h)

  -- A failed attempt, and those that are left.
  retry-panicked :
      (r : Outcome Error (Unit {0}) × Log x) (rest : Log x → Outcome Error (Unit {0}) × Log x)
      → FailsHeld r
      → ((l : Log x) → is_held l ≡ true → (rest l).0 ≡ panicked)
      → (retry x w r (rest r.1)).0 ≡ panicked
  unfolding retry
  retry-panicked (ok _, l) rest h k = absurd h
  retry-panicked (err e, l) rest h k = k l h
  retry-panicked (panicked, l) rest h k = refl

  terminate_within-panicked :
      (n : ℕ) (e : ReconciliationEntry x) (l : Log x)
      → is_held l ≡ true
      → (terminate_within x w n e l).0 ≡ panicked
  unfolding terminate_within
  terminate_within-panicked zero e l h = refl
  terminate_within-panicked (suc n) e l h =
      retry-panicked (terminate_attempt x w e l) (terminate_within x w n e)
        (terminate_attempt-FailsHeld e l h) (λ l k. terminate_within-panicked n e l k)

  handle_error-panicked :
      (op : Operation x) (e : Error) (s : Reconciler x)
      → is_held s.log ≡ true
      → max_attempts ≤ op.attempts
      → (handle_error x w op e s).0 ≡ panicked
  unfolding handle_error terminate
  handle_error-panicked op e s h a = ground (arith, terminate_within-panicked 10 op.entry s.log h)

  update_to-is_held :
      {E : Type 0} (old : Record x) (o : Outcome E (Unit {0}) × Record x) (l : Log x) {r : Record x}
      {l' : Log x}
      → update_to x w old o l ≡ (ok r, l')
      → is_held l' ≡ true
  unfolding update_to
  update_to-is_held old (ok _, r) l h = ground arith
  update_to-is_held old (err e, r) l h = cc
  update_to-is_held old (panicked, r) l h = cc

  get_state_updater-is_held :
      (e : ReconciliationEntry x) (l : Log x) {r : Record x} {l' : Log x}
      → get_state_updater x w e l ≡ (ok r, l')
      → is_held l' ≡ true
  unfolding get_state_updater new_negotiation_updater new_request_updater found_negotiation
      found_request update_to
  get_state_updater-is_held e l h = ground arith

  -- With a store that refuses a locked record, an operation that has been tried 50 times or more
  -- panics when its record could be locked and given the new state, but the other party cannot be
  -- reached: it is terminated while its own lock still is held, so that none of the ten attempts
  -- to change the state gets the record.
  pub reconcile_entry-panicked :
      (op : Operation x) (s : Reconciler x) (fatal : Bool) {r : Record x} {l : Log x}
      → get_state_updater x w op.entry s.log ≡ (ok r, l)
      → w.send_http_request l op.entry ≡ failed fatal
      → max_attempts ≤ op.attempts
      → (reconcile_entry x w op s).0 ≡ panicked
  unfolding reconcile_entry attempt take_reply handle_and_release
  reconcile_entry-panicked op s fatal {l = l} g f a =
      rw (g, f)
        (handle_error-panicked op (request_failed fatal) (record s { log = sent op.entry ∷ l })
          (get_state_updater-is_held op.entry s.log g) a)
