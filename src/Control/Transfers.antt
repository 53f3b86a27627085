-- ===== src/Control/Transfers.antt =====
-- dsp/control/control.go: the set-up of the calls on a single transfer, and the call that begins one.
use run_dsp.Prelude.{ℕ, String, Bool, true, false, Option, none, some, List, ◌∷◌, if◌then◌else◌}
use run_dsp.Exec.{Outcome, ok, err, panicked}
use run_dsp.Extern.{Extern}
use run_dsp.Auth.{check_requester_info}
use run_dsp.Role.{DataspaceRole, consumer}
use run_dsp.Odrl.{Agreement}
use run_dsp.Shared.Messages.{TraceInfo}
use run_dsp.Contract.Negotiation.{Negotiation}
use run_dsp.Transfer.State.{State}
use run_dsp.Transfer.Request.{Request, PublishInfo, new}
use run_dsp.StateMachine.TransferRecv.{Error, ProviderCall, Session}
use run_dsp.StateMachine.TransferSend.{Apply, send}
use run_dsp.Handlers.Transfers.{Call, Log, Service}
use run_dsp.Control.Code.{Code, internal, other}

-- What a call takes from its set-up and from the request: `uuid.New`, `s.selfURL` with the path of the
-- callback, the trace, and the requester. `get_contract` reads without locking, as does `watch_transfer`,
-- after some seconds of waiting, and `receive_dataset` is
-- the provider's answer, where the publishing information may be nil.
pub record Setup (x : Extern) : Type 0 where
  pub service : Service x
  pub get_contract : Log x → DataspaceRole → x.Uuid → Option (Negotiation x)
  pub receive_dataset : (dataset_id : String) → Option (Option PublishInfo)
  pub watch_transfer : (seconds : ℕ) → DataspaceRole → x.Uuid → Option (Request x)
  pub release_transfer : Log x → Request x → Bool
  pub new_pid : x.Uuid
  pub callback : x.Url
  pub trace : TraceInfo
  pub requester : Option x.RequesterInfo

module _ (x : Extern) (s : Setup x) where
  abbrev pub Rpc : Type 0
  Rpc = Log x → Outcome Code (Unit {0}) × Log x

  abbrev pub note : Call x → Log x → Log x
  note c l = record l { calls = c ∷ l.calls }

  -- Once `Send` has made the request message.
  unfoldable pub store_request : Apply x → Request x → Rpc
  store_request af tr l =
      if s.service.put_transfer l tr
      then (ok tt, note (Call.applied af) (note (Call.saved tr true) l))
      else (err internal, note (Call.saved tr false) l)

  unfoldable pub store_sent :
      Outcome Error (Apply x) × Session x → List (Call x) → Outcome Code (Unit {0}) × Log x
  unfolding store_request
  store_sent (ok af, t) c = store_request af t.request (record { calls = c; provider = t.calls })
  store_sent (err e, t) c = (err internal, record { calls = c; provider = t.calls })
  store_sent (panicked, t) c = (panicked, record { calls = c; provider = t.calls })

  unfoldable pub send_checked : Request x → Outcome (Unit {0}) (Unit {0}) → Rpc
  unfolding store_sent
  send_checked tr (ok _) l =
      store_sent (send x s.service.env (record { request = tr; calls = l.provider })) l.calls
  send_checked tr (err _) l = (err other, note (Call.released tr (s.release_transfer l tr)) l)
  send_checked tr panicked l = (panicked, l)

  unfoldable pub send_retrieved : Option (Request x) → Rpc
  unfolding send_checked check_requester_info
  send_retrieved none l = (err internal, l)
  send_retrieved (some tr) l =
      send_checked tr (check_requester_info x s.requester tr.requester_info)
        (note (Call.locked tr) l)

  -- The new transfer is saved, and read again for its lock; `none` is a panic of `New`.
  unfoldable pub store_new : Option (Request x) → Rpc
  unfolding send_retrieved
  store_new none l = (panicked, l)
  store_new (some tr) l =
      if s.service.put_transfer l tr
      then (let m = note (Call.saved tr true) l in
          send_retrieved (s.service.get_transfer m consumer tr.consumer_pid) m)
      else (err internal, note (Call.saved tr false) l)

  -- A nil agreement and a nil requester are dereferenced.
  unfoldable pub new_transfer :
      Negotiation x
      → Option (Agreement x)
      → Option x.RequesterInfo
      → Option PublishInfo
      → Option (Request x)
  unfolding new
  new_transfer cn (some ag) (some r) info =
      new x s.trace s.new_pid ag "HTTP_PUSH" cn.callback s.callback consumer State.initial info
        (some (x.local_origin (x.external_id r)))
  new_transfer cn _ _ info = none

  unfoldable pub after_receive : Negotiation x → Option (Option PublishInfo) → Rpc
  unfolding store_new new_transfer
  after_receive cn none l = (err other, l)
  after_receive cn (some info) l = store_new (new_transfer cn cn.agreement s.requester info) l

  unfoldable pub receive_for : Option (Negotiation x) → Rpc
  unfolding after_receive
  receive_for none l = (err other, l)
  receive_for (some cn) l =
      let target = cn.offer.message_offer.target in
      after_receive cn (s.receive_dataset target)
        (record l { provider = ProviderCall.received target ∷ l.provider })

  -- `InitiatePushTransfer`; `uuid.MustParse` panics.
  unfoldable pub initiate_push_transfer : (pid : String) → Rpc
  unfolding receive_for
  initiate_push_transfer pid l = elim (x.parse_uuid pid) [
    | none ↦ (panicked, l)
    | some id ↦ receive_for (s.get_contract l consumer id) l
  ]
