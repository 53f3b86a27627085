-- ===== src/Control/Completion.antt =====
-- dsp/control/control.go: `SignalTransferComplete`, with the code behind its loop over the two roles, and
-- what comes of that code. A wait of the code has no bound of its own, so a number of turns is given.
use run_dsp.Prelude.{
  ℕ, zero, suc, String, ◌≡◌, refl, true, false, Option, none, some, List, [], ◌∷◌, if◌then◌else◌,
}
use run_dsp.Exec.{Outcome, ok, err, panicked}
use run_dsp.Extern.{Extern}
use run_dsp.Auth.{check_requester_info}
use run_dsp.Role.{DataspaceRole, consumer, provider}
use run_dsp.Transfer.State
use run_dsp.Transfer.Request.{Request}
use run_dsp.StateMachine.TransferSend.{Apply, send}
use run_dsp.Handlers.Transfers.{Call, Log}
use run_dsp.Handlers.TransferLocks.{is_held}
use run_dsp.Control.Code.{Code, invalid_argument, not_found, internal, other}
use run_dsp.Control.Transfers.{Setup, note, store_sent}
use run_dsp.Control.Waiting.{Waited, returned, waiting}

module _ (x : Extern) (s : Setup x) where
  abbrev pub Ended : Type 0
  Ended = Waited (Unit {0}) × Log x

  unfoldable pub check_read :
      (again : Request x → Waited (Unit {0}))
      → Request x
      → Outcome (Unit {0}) (Unit {0})
      → Waited (Unit {0})
  check_read again tr (ok _) = again tr
  check_read again tr (err _) = returned (err other)
  check_read again tr panicked = returned panicked

  unfoldable pub read_turn :
      (again : Request x → Waited (Unit {0})) → Option (Request x) → Waited (Unit {0})
  unfolding check_read
  read_turn again none = returned (err internal)
  read_turn again (some tr) =
      check_read again tr (check_requester_info x s.requester tr.requester_info)

  -- The wait for COMPLETED, after some seconds of it.
  unfoldable pub wait_completed :
      (turns : ℕ) → (seconds : ℕ) → DataspaceRole → x.Uuid → Request x → Waited (Unit {0})
  unfolding read_turn
  wait_completed zero seconds role id tr = waiting
  wait_completed (suc n) seconds role id tr =
      if State.eq_state tr.state State.completed
      then returned (ok tt)
      else read_turn (λ next. wait_completed n (suc seconds) role id next)
          (s.watch_transfer (suc seconds) role id)

  -- Once the message is made, the transfer stored and the message left for the reconciler.
  unfoldable pub after_store :
      (turns : ℕ) → DataspaceRole → x.Uuid → Request x → Outcome Code (Unit {0}) × Log x → Ended
  unfolding wait_completed
  after_store turns role id tr (ok _, l) = (wait_completed turns 0 role id tr, l)
  after_store turns role id tr (err e, l) = (returned (err e), l)
  after_store turns role id tr (panicked, l) = (returned panicked, l)

  -- What follows the loop, with the role and the transfer that its variables have by then.
  unfoldable pub after_loop :
      (turns : ℕ) → x.Uuid → DataspaceRole → Option (Request x) → Log x → Ended
  unfolding after_store store_sent
  after_loop turns id role none l = (returned (err not_found), l)
  after_loop turns id role (some tr) l =
      let r = send x s.service.env (record { request = tr; calls = l.provider }) in
      after_store turns role id r.1.request (store_sent x s r l.calls)

  -- A transfer that a round finds is released, and the nil error of the parsed id returned beside a nil
  -- response. Without one, the variable is nil in the next round.
  unfoldable pub round :
      (next : Option (Request x) → Log x → Ended) → Option (Request x) → Log x → Ended
  round next none l = next none l
  round next (some tr) l =
      let m = note x s (Call.locked tr) l in
      (returned (ok tt), note x s (Call.released tr (s.release_transfer m tr)) m)

  -- The rounds for the given roles.
  unfoldable pub search_roles :
      (turns : ℕ) → x.Uuid → List DataspaceRole → DataspaceRole → Option (Request x) → Log x → Ended
  unfolding round after_loop
  search_roles turns id [] role tr l = after_loop turns id role tr l
  search_roles turns id (r ∷ rs) role tr l =
      round (λ next m. search_roles turns id rs r next m) (s.service.get_transfer l r id) l

  -- The empty request that the variable holds at first is replaced in the first round, and is nil here.
  unfoldable pub complete : (turns : ℕ) → Option x.Uuid → Log x → Ended
  unfolding search_roles
  complete turns none l = (returned (err invalid_argument), l)
  complete turns (some id) l = search_roles turns id (consumer ∷ provider ∷ []) consumer none l

  -- `SignalTransferComplete`
  unfoldable pub signal_transfer_complete : (turns : ℕ) → (id : String) → Log x → Ended
  unfolding complete
  signal_transfer_complete turns raw l = complete turns (x.parse_uuid raw) l

-- The messages that were left for the reconciler.
abbrev pub applies : {x : Extern} → List (Call x) → List (Apply x)
applies [] = []
applies (Call.locked tr ∷ l) = applies l
applies (Call.saved tr done ∷ l) = applies l
applies (Call.released tr done ∷ l) = applies l
applies (Call.applied af ∷ l) = af ∷ applies l

-- How often a transfer was stored.
abbrev pub saves : {x : Extern} → List (Call x) → ℕ
saves [] = 0
saves (Call.locked tr ∷ l) = saves l
saves (Call.saved tr done ∷ l) = suc (saves l)
saves (Call.released tr done ∷ l) = saves l
saves (Call.applied af ∷ l) = saves l

-- From `l` on, nothing was sent or stored, the provider was not called, no transfer was left locked,
-- and the call has returned.
pub record Idle (x : Extern) (l : Log x) (r : Waited (Unit {0}) × Log x) : Type 0 where
  pub result : Outcome Code (Unit {0})
  pub ended : r.0 ≡ returned result
  pub silent : applies r.1.calls ≡ applies l.calls
  pub unsaved : saves r.1.calls ≡ saves l.calls
  pub calls : r.1.provider ≡ l.provider
  pub free : is_held r.1.calls ≡ false

module _ (x : Extern) (s : Setup x)
    (releases : (l : Log x) (tr : Request x) → s.release_transfer l tr ≡ true) where
  same_log-Idle : (c : Code) (l : Log x) → is_held l.calls ≡ false → Idle x l (returned (err c), l)
  same_log-Idle c l h = record {
    result = err c;
    ended = refl;
    silent = refl;
    unsaved = refl;
    calls = refl;
    free = h;
  }

  round-Idle :
      (next : Option (Request x) → Log x → Ended x s) (o : Option (Request x)) (l : Log x)
      → Idle x l (next none l)
      → Idle x l (round x s next o l)
  unfolding round
  round-Idle next none l h = h
  round-Idle next (some tr) l h = record {
    result = ok tt;
    ended = refl;
    silent = refl;
    unsaved = refl;
    calls = refl;
    free = rw (releases (note x s (Call.locked tr) l) tr) refl;
  }

  -- However many roles are tried, the variable is nil behind the loop.
  search_roles-Idle :
      (turns : ℕ) (id : x.Uuid) (rs : List DataspaceRole) (role : DataspaceRole) (l : Log x)
      → is_held l.calls ≡ false
      → Idle x l (search_roles x s turns id rs role none l)
  unfolding search_roles after_loop
  search_roles-Idle turns id [] role l h = same_log-Idle not_found l h
  search_roles-Idle turns id (r ∷ rs) role l h =
      round-Idle (search_roles x s turns id rs r) (s.service.get_transfer l r id) l
        (search_roles-Idle turns id rs r l h)

  complete-Idle :
      (turns : ℕ) (o : Option x.Uuid) (l : Log x)
      → is_held l.calls ≡ false
      → Idle x l (complete x s turns o l)
  unfolding complete
  complete-Idle turns none l h = same_log-Idle invalid_argument l h
  complete-Idle turns (some id) l h =
      search_roles-Idle turns id (consumer ∷ provider ∷ []) consumer l h

  -- Where every release succeeds and no transfer was locked before, and whatever is stored:
  -- `SignalTransferComplete` returns, for every number of turns that its wait is given, sends no
  -- message, stores no transfer, does not call the provider, and leaves no transfer locked.
  pub signal_transfer_complete-Idle :
      (turns : ℕ) (id : String) (l : Log x)
      → is_held l.calls ≡ false
      → Idle x l (signal_transfer_complete x s turns id l)
  unfolding signal_transfer_complete
  signal_transfer_complete-Idle turns id l h = complete-Idle turns (x.parse_uuid id) l h
