-- ===== src/Control/Sending.antt =====
-- dsp/control/contracts.go: the calls that answer the other party, and the messages that they send.
use native.Mathlib.Omega.{arith}
use run_dsp.Prelude.{String, ◌≡◌, ◌≢◌, refl, Bool, true, false, Option, none, some, List, [], ◌∷◌}
use run_dsp.Exec.{Outcome, ok, err, panicked}
use run_dsp.Extern.{Extern, IsLawful}
use run_dsp.Auth.{check_requester_info}
use run_dsp.Role.{DataspaceRole, consumer, provider}
use run_dsp.Odrl.{Agreement}
use run_dsp.Shared.Messages.{ContractMessage}
use run_dsp.Contract.State.{State, contains, state_string}
use run_dsp.Contract.Negotiation.{Negotiation, set_agreement}
use run_dsp.StateMachine.Env.{Env, Error, Apply, add_entry}
use run_dsp.StateMachine.ContractSend.{
  send, send_in, send_message, make_entry, send_requested, send_offered, send_contract_agreement,
  send_contract_event, send_contract_verification,
}
use run_dsp.Handlers.Contracts.{Log, saved, applied, Service}
use run_dsp.Handlers.ContractLocks.{is_held}
use run_dsp.Control.Code.{Code}
use run_dsp.Control.Contracts.{
  local_requester, apply_it, store_agreement, store_sent, send_from, marked, contract_accept,
  contract_agree, contract_verify, contract_finalize,
}

-- The calls that answer the other party.
pub data Command : Type 0 where
  accept agree verify finalize : Command

abbrev pub sources : Command → List State
sources accept = State.offered ∷ []
sources agree = State.requested ∷ State.accepted ∷ []
sources verify = State.agreed ∷ []
sources finalize = State.verified ∷ []

abbrev pub target : Command → State
target accept = State.accepted
target agree = State.agreed
target verify = State.verified
target finalize = State.finalized

abbrev pub sender : Command → DataspaceRole
sender accept = consumer
sender agree = provider
sender verify = consumer
sender finalize = provider

abbrev pub run :
    (x : Extern) (v : Service x)
    → Command
    → (pid : String) → (auto_accept : Bool) → Log x
    → Outcome Code (Unit {0}) × Log x
run x v accept = contract_accept x v
run x v agree = contract_agree x v
run x v verify = contract_verify x v
run x v finalize = contract_finalize x v

-- A function that adds an entry for the state `t`.
abbrev pub Adds : {x : Extern} → State → Apply x → Type 0
Adds t (add_entry e) = e.target_state ≡ state_string t
Adds t _ = ⊥

-- `Send` returns a function that adds an entry for the state `t`.
abbrev pub Sends : {x : Extern} → State → Outcome Error (Apply x) × Negotiation x → Type 0
Sends t (ok af, cn) = Adds t af
Sends t (err e, cn) = ⊥
Sends t (panicked, cn) = ⊥

-- The call succeeds, its last step is to add an entry for the state `t`, and the negotiation is not locked
-- by then.
abbrev pub Sent : {x : Extern} → State → Outcome Code (Unit {0}) × Log x → Type 0
Sent t (ok _, applied af done ∷ l) = Adds t af × (is_held l ≡ false)
Sent t _ = ⊥

-- Every message can be marshalled.
abbrev pub Marshals : (x : Extern) → Env x → Type 0
Marshals x env = (m : ContractMessage x) → env.marshal m ≢ none

-- Every write succeeds.
pub record Stores (x : Extern) (v : Service x) : Type 0 where
  pub contract : (l : Log x) (cn : Negotiation x) → v.put_contract l cn ≡ true
  pub agreement : (l : Log x) (a : Agreement x) → v.put_agreement l a ≡ true

module _ (x : Extern) (env : Env x) (marshals : Marshals x env) where
  pub send_message-Sends :
      (m : ContractMessage x) (path : List String) (t : State) (cn : Negotiation x)
      → Sends t (send_message x env m path t cn)
  unfolding send_message make_entry
  send_message-Sends m path t cn = ground (arith, marshals m)

module _ (x : Extern) (laws : IsLawful x) where
  -- The requester of a control call is our own, and passes every check.
  own_requester :
      (stored : x.RequesterInfo)
      → check_requester_info x (some (local_requester x)) (some stored) ≡ ok tt
  unfolding check_requester_info
  own_requester stored = ground (arith, laws.is_local_origin-local_origin "")

  pub own_passes :
      (stored : Option x.RequesterInfo) {r : x.RequesterInfo}
      → stored ≡ some r
      → check_requester_info x (some (local_requester x)) stored ≡ ok tt
  own_passes stored {r = r} q = rw q (own_requester r)

module _ (x : Extern) (v : Service x) (stores : Stores x v) where
  store_agreement-Sent :
      (t : State) (af : Apply x) (cn : Negotiation x) (a : Option (Agreement x)) (l : Log x)
      → Adds t af
      → is_held l ≡ false
      → Sent t (store_agreement x v af cn a l)
  unfolding store_agreement apply_it
  store_agreement-Sent t af cn none l s h = (s, h)
  store_agreement-Sent t af cn (some a) l s h = ground (arith, stores.agreement l a)

  pub store_sent-Sent :
      (t : State) (r : Outcome Error (Apply x) × Negotiation x) (l : Log x)
      → Sends t r
      → Sent t (store_sent x v r l)
  unfolding store_sent
  store_sent-Sent t (ok e, cn) l s =
      rw (stores.contract l cn)
        (store_agreement-Sent t e cn cn.agreement (saved cn true ∷ l) s refl)
  store_sent-Sent t (err e, cn) l s = absurd s
  store_sent-Sent t (panicked, cn) l s = absurd s

  pub send_from-Sent :
      (from : List State) (cn : Negotiation x) (l : Log x) (t : State)
      → contains cn.state from ≡ true
      → Sends t (send x v.env cn)
      → Sent t (send_from x v from cn l)
  unfolding send_from
  send_from-Sent from cn l t c s = rw c (store_sent-Sent t (send x v.env cn) l s)

module _ (x : Extern) (v : Service x) (stores : Stores x v) (marshals : Marshals x v.env) where
  message-Sends :
      (m : ContractMessage x) (path : List String) (t : State) (cn : Negotiation x)
      → Sends t (send_message x v.env m path t cn)
  message-Sends = send_message-Sends x v.env marshals

  agreement-Sends :
      (cn : Negotiation x) → cn.ro ≡ false → Sends State.agreed (send_contract_agreement x v.env cn)
  unfolding send_contract_agreement set_agreement
  agreement-Sends cn w = rw w (message-Sends _ _ State.agreed _)

  requested-Sends :
      (cn : Negotiation x)
      → cn.initial ≡ false
      → cn.ro ≡ false
      → Sends State.agreed (send_requested x v.env cn)
  unfolding send_requested
  requested-Sends cn i w = simp i (agreement-Sends cn w)

  offered-Sends :
      (cn : Negotiation x) → cn.initial ≡ false → Sends State.accepted (send_offered x v.env cn)
  unfolding send_offered send_contract_event
  offered-Sends cn i = simp i (message-Sends _ _ State.accepted cn)

  verification-Sends :
      (cn : Negotiation x) → Sends State.verified (send_contract_verification x v.env cn)
  unfolding send_contract_verification
  verification-Sends cn = message-Sends _ _ State.verified cn

  event-Sends :
      (pid : x.Uuid) (cn : Negotiation x)
      → Sends State.finalized (send_contract_event x v.env pid State.finalized cn)
  unfolding send_contract_event
  event-Sends pid cn = message-Sends _ _ State.finalized cn

  -- `Send` in each state that a call allows.
  send-Sends :
      (k : Command) (cn : Negotiation x)
      → contains cn.state (sources k) ≡ true
      → cn.initial ≡ false
      → cn.ro ≡ false
      → Sends (target k) (send x v.env cn)
  unfolding send send_in
  send-Sends accept cn c i w = ground (arith, offered-Sends cn i)
  send-Sends agree cn c i w = ground (arith, requested-Sends cn i w, agreement-Sends cn w)
  send-Sends verify cn c i w = ground (arith, verification-Sends cn)
  send-Sends finalize cn c i w = ground (arith, event-Sends cn.consumer_pid cn)

  pub marked-Sent :
      (k : Command) (auto : Bool) (cn : Negotiation x) (l : Log x)
      → contains cn.state (sources k) ≡ true
      → cn.initial ≡ false
      → cn.ro ≡ false
      → Sent (target k) (send_from x v (sources k) (marked x v false auto cn) l)
  marked-Sent k true cn l c i w =
      let marked_cn = marked x v false true cn in
      send_from-Sent x v stores (sources k) marked_cn l (target k) c (send-Sends k marked_cn c i w)
  marked-Sent k false cn l c i w =
      send_from-Sent x v stores (sources k) cn l (target k) c (send-Sends k cn c i w)
