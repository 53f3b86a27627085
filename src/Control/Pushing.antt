-- ===== src/Control/Pushing.antt =====
-- dsp/control/control.go: the call that begins a push transfer sends a request.
use run_dsp.Prelude.{String, ◌≡◌, ◌≢◌, refl, ap, ◌∙◌, true, false, none, some, List, ◌∷◌, arith}
use run_dsp.Exec.{Outcome, ok, err, panicked}
use run_dsp.Extern.{Extern, IsLawful}
use run_dsp.Auth.{check_requester_info}
use run_dsp.Role.{consumer}
use run_dsp.Odrl.{Agreement}
use run_dsp.Contract.Negotiation.{Negotiation}
use run_dsp.Shared.TransferMessages.{TransferMessage, DataAddress}
use run_dsp.Transfer.State.{State, Direction, state_string}
use run_dsp.Transfer.Request.{Request, PublishInfo, new}
use run_dsp.StateMachine.PublishInfo.{publish_info_to_data_address}
use run_dsp.StateMachine.TransferRecv.{Error, Session}
use run_dsp.StateMachine.TransferSend.{
  Apply, add_entry, send, send_in, send_transfer_request, request_message, make_entry,
}
use run_dsp.Handlers.Transfers.{Call, Log, Service}
use run_dsp.Handlers.TransferLocks.{is_held}
use run_dsp.Control.Code.{Code}
use run_dsp.Control.Transfers.{
  Setup, note, store_request, store_sent, send_checked, send_retrieved, store_new, new_transfer,
  after_receive, receive_for, initiate_push_transfer,
}

-- The function adds an entry for the state REQUESTED.
abbrev pub AddsRequest : {x : Extern} → Apply x → Type 0
AddsRequest (add_entry e) = e.target_state ≡ state_string State.requested
AddsRequest _ = ⊥

-- The last step was to add that entry, and the transfer was not locked by then.
abbrev pub Requested : {x : Extern} → List (Call x) → Type 0
Requested (Call.applied af ∷ l) = AddsRequest af × (is_held l ≡ false)
Requested _ = ⊥

-- The call succeeds, and has sent a request.
abbrev pub Requests : {x : Extern} → Outcome Code (Unit {0}) × Log x → Type 0
Requests (ok _, l) = Requested l.calls
Requests _ = ⊥

abbrev SendsRequest : {x : Extern} → Outcome Error (Apply x) × Session x → Type 0
SendsRequest (ok af, t) = AddsRequest af
SendsRequest _ = ⊥

-- Every message can be marshalled, and every transfer saved.
pub record Works (x : Extern) (v : Service x) : Type 0 where
  pub marshals : (m : TransferMessage x) → v.env.marshal m ≢ none
  pub saves : (l : Log x) (tr : Request x) → v.put_transfer l tr ≡ true

module _ (x : Extern) (law : IsLawful x) (s : Setup x) (works : Works x s.service) where
  send-SendsRequest :
      (t : Session x) (pi : PublishInfo) {d : DataAddress}
      → t.request.state ≡ State.initial
      → t.request.transfer_direction ≡ Direction.push
      → t.request.publish_info ≡ some pi
      → publish_info_to_data_address (some pi) ≡ ok d
      → SendsRequest (send x s.service.env t)
  unfolding send send_in send_transfer_request make_entry
  send-SendsRequest t pi {d = d} i p f a =
      simp (i, p, f)
        (ground (
          arith,
          a,
          works.marshals (TransferMessage.request (request_message x (some d) t.request)),
        ))

  store_sent-Requests :
      (r : Outcome Error (Apply x) × Session x) (c : List (Call x))
      → SendsRequest r
      → Requests (store_sent x s r c)
  unfolding store_sent store_request
  store_sent-Requests (ok af, t) c h =
      rw (works.saves (record { calls = c; provider = t.calls }) t.request) (h, refl)
  store_sent-Requests (err e, t) c h = absurd h
  store_sent-Requests (panicked, t) c h = absurd h

  -- The stored requester is our own, and passes every check.
  own_passes :
      (tr : Request x) (e : String)
      → tr.requester_info ≡ some (x.local_origin e)
      → check_requester_info x s.requester tr.requester_info ≡ ok tt
  unfolding check_requester_info
  own_passes tr e h = rw h (ground (arith, law.is_local_origin-local_origin e))

  send_checked-Requests :
      (tr : Request x) (o : Outcome (Unit {0}) (Unit {0})) (l : Log x)
      → o ≡ ok tt
      → SendsRequest (send x s.service.env (record { request = tr; calls = l.provider }))
      → Requests (send_checked x s tr o l)
  unfolding send_checked
  send_checked-Requests tr (ok _) l e h = store_sent-Requests _ l.calls h
  send_checked-Requests tr (err _) l e h = cc
  send_checked-Requests tr panicked l e h = cc

-- A request that a push transfer begins with.
record IsPush (x : Extern) (pi : PublishInfo) (tr : Request x) : Type 0 where
  pub state : tr.state ≡ State.initial
  pub direction : tr.transfer_direction ≡ Direction.push
  pub info : tr.publish_info ≡ some pi
  pub external_id : String
  pub requester : tr.requester_info ≡ some (x.local_origin external_id)

-- What a saved request has when it is read again.
pub record ReadAgain (x : Extern) (tr next : Request x) : Type 0 where
  pub state : next.state ≡ tr.state
  pub direction : next.transfer_direction ≡ tr.transfer_direction
  pub info : next.publish_info ≡ tr.publish_info
  pub requester : next.requester_info ≡ tr.requester_info

-- A request that was saved is read again for writing.
abbrev pub GivesBack : (x : Extern) → Setup x → Type 0
GivesBack x s =
    (l : Log x) (tr : Request x)
    → (next : Request x) × (s.service.get_transfer (note x s (Call.saved tr true) l) consumer
          tr.consumer_pid
        ≡ some next)
      × ReadAgain x tr next

module _ (x : Extern) (law : IsLawful x) (s : Setup x) (works : Works x s.service)
    (back : GivesBack x s) where
  retrieved-Requests :
      (tr : Request x) (pi : PublishInfo) {d : DataAddress} (l : Log x)
      → IsPush x pi tr
      → publish_info_to_data_address (some pi) ≡ ok d
      → Requests (send_retrieved x s (some tr) l)
  unfolding send_retrieved
  retrieved-Requests tr pi l h a =
      send_checked-Requests x law s works tr _ (note x s (Call.locked tr) l)
        (own_passes x law s works tr h.external_id h.requester)
        (send-SendsRequest x law s works (record { request = tr; calls = l.provider }) pi h.state
          h.direction h.info a)

  store_new-Requests :
      (tr : Request x) (pi : PublishInfo) {d : DataAddress} (l : Log x)
      → IsPush x pi tr
      → publish_info_to_data_address (some pi) ≡ ok d
      → Requests (store_new x s (some tr) l)
  unfolding store_new
  store_new-Requests tr pi l h a =
      let (next, g, k) = back l tr in
      let push : IsPush x pi next = record {
        state = k.state ∙ h.state;
        direction = k.direction ∙ h.direction;
        info = k.info ∙ h.info;
        external_id = h.external_id;
        requester = k.requester ∙ h.requester;
      } in
      rw (works.saves l tr, g) (retrieved-Requests next pi (note x s (Call.saved tr true) l) push a)

  new_transfer-IsPush :
      (cn : Negotiation x) (ag : Agreement x) (r : x.RequesterInfo) (pi : PublishInfo)
      {tr : Request x}
      → new_transfer x s cn (some ag) (some r) (some pi) ≡ some tr
      → IsPush x pi tr
  unfolding new_transfer new
  new_transfer-IsPush cn ag r pi h = record {
    state = ground arith;
    direction = ground arith;
    info = ground arith;
    external_id = x.external_id r;
    requester = ground arith;
  }

  -- With a store that saves and gives back, and where every message can be marshalled: for a contract that
  -- is found, with an agreement, a requester, and a provider that takes the dataset and names where, in a
  -- form that has a data address, `InitiatePushTransfer` succeeds, if the new transfer can be made of the
  -- agreement; it has at last added an entry for the reconciler with the target REQUESTED, and the
  -- transfer is not locked by then.
  pub initiate_push_transfer-Requests :
      (pid : String) (l : Log x) (pi : PublishInfo) {id : x.Uuid} {cn : Negotiation x}
      {ag : Agreement x} {r : x.RequesterInfo} {first : Request x} {d : DataAddress}
      → x.parse_uuid pid ≡ some id
      → s.get_contract l consumer id ≡ some cn
      → cn.agreement ≡ some ag
      → s.requester ≡ some r
      → s.receive_dataset cn.offer.message_offer.target ≡ some (some pi)
      → publish_info_to_data_address (some pi) ≡ ok d
      → new_transfer x s cn (some ag) (some r) (some pi) ≡ some first
      → Requests (initiate_push_transfer x s pid l)
  unfolding initiate_push_transfer receive_for after_receive
  initiate_push_transfer-Requests pid l pi {cn = cn} {ag = ag} {r = r} {first = first} p c g q v a
        n =
      let made : new_transfer x s cn cn.agreement s.requester (some pi) ≡ some first =
        ap (λ o. new_transfer x s cn o s.requester (some pi)) g
        ∙ ap (λ o. new_transfer x s cn (some ag) o (some pi)) q
        ∙ n in
      rw (initiate_push_transfer, p, c, v, made)
        (store_new-Requests first pi _ (new_transfer-IsPush cn ag r pi n) a)
