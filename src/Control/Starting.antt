-- ===== src/Control/Starting.antt =====
-- dsp/control/contracts.go: how a consumer starts a negotiation.
use run_dsp.Prelude.{String, ◌≡◌, refl, ap, ◌∙◌, Bool, true, false, some, [], ◌∷◌, str_eq}
use run_dsp.Exec.{Outcome, ok, err, panicked}
use run_dsp.Extern.{Extern, IsLawful}
use run_dsp.Role.{consumer}
use run_dsp.Odrl.{Offer}
use run_dsp.Contract.State.{State}
use run_dsp.Contract.Negotiation.{Negotiation, new}
use run_dsp.StateMachine.ContractSend.{send, send_in, send_initial, send_contract_request}
use run_dsp.Handlers.Contracts.{Log, saved, locked, Service}
use run_dsp.Control.Provider.{get_provider_url}
use run_dsp.Control.Contracts.{
  Setup, marked, send_checked, send_found, send_contract_message, new_negotiation,
  start_negotiation, request_or_offer, contract_request,
}
use run_dsp.Control.Sending.{
  Sends, Sent, Marshals, Stores, own_passes, send_message-Sends, send_from-Sent,
}

-- A negotiation that we, the consumer, begin.
record Begins (x : Extern) (cn : Negotiation x) : Type 0 where
  pub state : cn.state ≡ State.initial
  pub ours : x.eq_uuid cn.consumer_pid x.nil_uuid ≡ false
  pub theirs : x.eq_uuid cn.provider_pid x.nil_uuid ≡ true

-- What a saved negotiation has when it is read again.
pub record ReadAgain (x : Extern) (cn next : Negotiation x) : Type 0 where
  pub state : next.state ≡ cn.state
  pub consumer_pid : next.consumer_pid ≡ cn.consumer_pid
  pub provider_pid : next.provider_pid ≡ cn.provider_pid
  pub requester : next.requester_info ≡ cn.requester_info

-- A consumer's negotiation that was saved is read again for writing.
abbrev pub GivesBack : (x : Extern) → Service x → Type 0
GivesBack x v =
    (l : Log x) (cn : Negotiation x)
    → (next : Negotiation x) × (v.get_contract (saved cn true ∷ l) consumer cn.consumer_pid
        ≡ some next)
      × ReadAgain x cn next

module _ (x : Extern) (v : Service x) (stores : Stores x v) (marshals : Marshals x v.env)
    (law : IsLawful x) where
  send-Begins : (cn : Negotiation x) → Begins x cn → Sends State.requested (send x v.env cn)
  unfolding send send_in send_initial send_contract_request
  send-Begins cn h =
      simp (h.state, h.ours, h.theirs) (send_message-Sends x v.env marshals _ _ State.requested cn)

  checked-Begins :
      (auto : Bool) (cn : Negotiation x) (o : Outcome (Unit {0}) (Unit {0})) (l : Log x)
      → o ≡ ok tt
      → Begins x cn
      → Sent State.requested
          (send_checked x v (State.initial ∷ State.offered ∷ []) true auto cn o l)
  unfolding send_checked
  checked-Begins true cn (ok _) l e h =
      let first = marked x v true true cn in
      send_from-Sent x v stores (State.initial ∷ State.offered ∷ []) first l State.requested
        (simp (h.state) refl)
        (send-Begins first (record { state = h.state; ours = h.ours; theirs = h.theirs }))
  checked-Begins false cn (ok _) l e h =
      let first = marked x v true false cn in
      send_from-Sent x v stores (State.initial ∷ State.offered ∷ []) first l State.requested
        (simp (h.state) refl)
        (send-Begins first (record { state = h.state; ours = h.ours; theirs = h.theirs }))
  checked-Begins auto cn (err _) l e h = cc
  checked-Begins auto cn panicked l e h = cc

  -- The negotiation is new: it was saved, and is read again.
  saved-Begins :
      (auto : Bool) (cn : Negotiation x) (l : Log x) {r : x.RequesterInfo}
      → GivesBack x v
      → Begins x cn
      → cn.requester_info ≡ some r
      → Sent State.requested (
          send_found x v
            (State.initial ∷ State.offered ∷ [])
            true
            auto
            (v.get_contract (saved cn true ∷ l) consumer cn.consumer_pid)
            (saved cn true ∷ l))
  unfolding send_found
  saved-Begins auto cn l back h q =
      let (next, g, k) = back l cn in
      rw g (
        checked-Begins auto next _ (locked next ∷ saved cn true ∷ l)
          (own_passes x law next.requester_info (k.requester ∙ q))
          (record {
            state = k.state ∙ h.state;
            ours = ap (λ u. x.eq_uuid u x.nil_uuid) k.consumer_pid ∙ h.ours;
            theirs = ap (λ u. x.eq_uuid u x.nil_uuid) k.provider_pid ∙ h.theirs;
          }))

  -- With a store that saves and gives back, and where every message can be marshalled: `ContractRequest`
  -- without a PID, for an offer that can be read and a participant whose URL is found, succeeds, if the
  -- fresh PID is not the nil UUID; it has at last added an entry for the reconciler with the target
  -- REQUESTED, and the negotiation is not locked by then.
  pub contract_request-Sent :
      (s : Setup x) (address raw_offer : String) (auto : Bool) (l : Log x) {offer : Offer x}
      {url : x.Url}
      → GivesBack x v
      → str_eq address "" ≡ false
      → s.unmarshal_offer raw_offer ≡ some offer
      → get_provider_url x s.requester address ≡ ok url
      → x.eq_uuid s.new_pid x.nil_uuid ≡ false
      → Sent State.requested (contract_request x v s "" address raw_offer auto l)
  unfolding contract_request request_or_offer start_negotiation send_contract_message
      new_negotiation new
  contract_request-Sent s address raw_offer auto l {offer = offer} {url = url} back a o u n =
      let cn = new_negotiation x v s consumer offer url auto in
      let self : x.eq_uuid x.nil_uuid x.nil_uuid ≡ true =
        (law.eq_uuid_iff x.nil_uuid x.nil_uuid).1 refl in
      rw (contract_request, a, o, u, stores.contract l cn)
        (rw (send_contract_message, law.parse-string s.new_pid)
          (saved-Begins auto cn l back (record { state = refl; ours = n; theirs = self }) refl))
