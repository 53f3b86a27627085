-- ===== src/Control/Steps.antt =====
-- dsp/control/contracts.go: what the calls that answer the other party do to a negotiation.
use run_dsp.Prelude.{String, ◌≡◌, refl, Bool, true, false, some, List, ◌∷◌}
use run_dsp.Exec.{Outcome, ok, err, panicked}
use run_dsp.Extern.{Extern, IsLawful}
use run_dsp.Role.{DataspaceRole}
use run_dsp.Contract.State.{State, contains}
use run_dsp.Contract.Negotiation.{Negotiation}
use run_dsp.Handlers.Contracts.{Log, locked, Service}
use run_dsp.Handlers.ContractLocks.{is_held}
use run_dsp.Control.Code.{Code, invalid_argument}
use run_dsp.Control.Contracts.{
  send_from, send_checked, send_found, send_contract_message, contract_accept, contract_agree,
  contract_verify, contract_finalize,
}
use run_dsp.Control.Sending.{
  Command, accept, agree, verify, finalize, sources, target, sender, run, Sent, Marshals, Stores,
  own_passes, marked-Sent,
}

module _ (x : Extern) (v : Service x) (stores : Stores x v) (marshals : Marshals x v.env) where
  module _ (laws : IsLawful x) where
    checked-Sent :
        (k : Command) (auto : Bool) (cn : Negotiation x) (o : Outcome (Unit {0}) (Unit {0}))
        (l : Log x)
        → o ≡ ok tt
        → contains cn.state (sources k) ≡ true
        → cn.initial ≡ false
        → cn.ro ≡ false
        → Sent (target k) (send_checked x v (sources k) false auto cn o l)
    unfolding send_checked
    checked-Sent k auto cn (ok _) l q c i w = marked-Sent x v stores marshals k auto cn l c i w
    checked-Sent k auto cn (err e) l q c i w = cc
    checked-Sent k auto cn panicked l q c i w = cc

    found-Sent :
        (k : Command) (auto : Bool) (cn : Negotiation x) {r : x.RequesterInfo} (l : Log x)
        → cn.requester_info ≡ some r
        → contains cn.state (sources k) ≡ true
        → cn.initial ≡ false
        → cn.ro ≡ false
        → Sent (target k) (send_found x v (sources k) false auto (some cn) l)
    unfolding send_found
    found-Sent k auto cn l q c i w =
        checked-Sent k auto cn _ (locked cn ∷ l) (own_passes x laws cn.requester_info q) c i w

    message-Sent :
        (k : Command) (auto : Bool) (raw_pid : String) (l : Log x) {pid : x.Uuid}
        {cn : Negotiation x} {r : x.RequesterInfo}
        → x.parse_uuid raw_pid ≡ some pid
        → v.get_contract l (sender k) pid ≡ some cn
        → cn.requester_info ≡ some r
        → contains cn.state (sources k) ≡ true
        → cn.initial ≡ false
        → cn.ro ≡ false
        → Sent (target k) (send_contract_message x v (sources k) raw_pid (sender k) false auto l)
    unfolding send_contract_message
    message-Sent k auto raw_pid l {cn = cn} p g q c i w =
        rw (send_contract_message, p, g) (found-Sent k auto cn l q c i w)

    -- With a store whose writes succeed, and where every message can be marshalled: each of the
    -- calls `ContractAccept`, `ContractAgree`, `ContractVerify` and `ContractFinalize`, for a PID
    -- by which the store gives out a writable negotiation that has a requester, is not marked as
    -- initial and is in a state that the call allows, succeeds, and has at last added an entry for
    -- the reconciler whose target is the state that the call is named for; by then the negotiation
    -- is not locked.
    pub run-Sent :
        (k : Command) (auto : Bool) (raw_pid : String) (l : Log x) {pid : x.Uuid}
        {cn : Negotiation x} {r : x.RequesterInfo}
        → x.parse_uuid raw_pid ≡ some pid
        → v.get_contract l (sender k) pid ≡ some cn
        → cn.requester_info ≡ some r
        → contains cn.state (sources k) ≡ true
        → cn.initial ≡ false
        → cn.ro ≡ false
        → Sent (target k) (run x v k raw_pid auto l)
    unfolding contract_accept contract_agree contract_verify contract_finalize
    run-Sent accept = message-Sent accept
    run-Sent agree = message-Sent agree
    run-Sent verify = message-Sent verify
    run-Sent finalize = message-Sent finalize

-- The call fails with the code `c`, and the last step left the negotiation locked.
abbrev pub Fails : {x : Extern} → Code → Outcome Code (Unit {0}) × Log x → Type 0
Fails c (err d, l) = (d ≡ c) × (is_held l ≡ true)
Fails c (ok _, l) = ⊥
Fails c (panicked, l) = ⊥

module _ (x : Extern) (v : Service x) (laws : IsLawful x) where
  checked-Fails :
      (from : List State) (auto : Bool) (cn : Negotiation x) (o : Outcome (Unit {0}) (Unit {0}))
      (l : Log x)
      → o ≡ ok tt
      → contains cn.state from ≡ false
      → is_held l ≡ true
      → Fails invalid_argument (send_checked x v from false auto cn o l)
  unfolding send_checked send_from
  checked-Fails from true cn (ok _) l q c h = simp c (refl, h)
  checked-Fails from false cn (ok _) l q c h = simp c (refl, h)
  checked-Fails from auto cn (err e) l q c h = cc
  checked-Fails from auto cn panicked l q c h = cc

  message-Fails :
      (from : List State) (role : DataspaceRole) (auto : Bool) (raw_pid : String) (l : Log x)
      {pid : x.Uuid} {cn : Negotiation x} {r : x.RequesterInfo}
      → x.parse_uuid raw_pid ≡ some pid
      → v.get_contract l role pid ≡ some cn
      → cn.requester_info ≡ some r
      → contains cn.state from ≡ false
      → Fails invalid_argument (send_contract_message x v from raw_pid role false auto l)
  unfolding send_contract_message send_found
  message-Fails from role auto raw_pid l {cn = cn} p g q c =
      rw (send_contract_message, p, g)
        (checked-Fails from auto cn _ (locked cn ∷ l) (own_passes x laws cn.requester_info q) c
          refl)

  -- Each of the calls `ContractAccept`, `ContractAgree`, `ContractVerify` and `ContractFinalize`,
  -- for a PID by which the store gives out a negotiation that has a requester and is in a state
  -- that the call does not allow, fails as an invalid argument, and leaves the negotiation locked,
  -- since nothing releases it.
  pub run-Fails :
      (k : Command) (auto : Bool) (raw_pid : String) (l : Log x) {pid : x.Uuid} {cn : Negotiation x}
      {r : x.RequesterInfo}
      → x.parse_uuid raw_pid ≡ some pid
      → v.get_contract l (sender k) pid ≡ some cn
      → cn.requester_info ≡ some r
      → contains cn.state (sources k) ≡ false
      → Fails invalid_argument (run x v k raw_pid auto l)
  unfolding contract_accept contract_agree contract_verify contract_finalize
  run-Fails accept = message-Fails _ _
  run-Fails agree = message-Fails _ _
  run-Fails verify = message-Fails _ _
  run-Fails finalize = message-Fails _ _
