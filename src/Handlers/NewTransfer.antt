-- ===== src/Handlers/NewTransfer.antt =====
-- dsp/transfer_handlers.go: `providerTransferRequestHandler`, which starts a transfer, from a decoded
-- message on.
use run_dsp.Prelude.{Option, none, some, ◌≡◌, arith, true}
use run_dsp.Exec.{Outcome, ok, err, panicked}
use run_dsp.Extern.{Extern}
use run_dsp.Role.{provider}
use run_dsp.Odrl.{Agreement}
use run_dsp.Shared.Messages.{TraceInfo}
use run_dsp.Shared.TransferMessages.{
  TransferMessage, TransferRequestMessage, TransferProcess, DataAddress,
}
use run_dsp.Transfer.State.{State}
use run_dsp.Transfer.Request.{Request, PublishInfo, new, set_provider_pid}
use run_dsp.StateMachine.PublishInfo.{AddressError, data_address_to_publish_info}
use run_dsp.Handlers.Transfers.{
  Log, Service, TransferError, Handler, transfer_error, store_request, process_transfer_message,
}

-- What the handler takes from the request and from its own set-up: `uuid.New`, `dh.selfURL`, the trace,
-- and the requester.
pub record Setup (x : Extern) : Type 0 where
  pub new_pid : x.Uuid
  pub self : x.Url
  pub trace : TraceInfo
  pub requester : Option x.RequesterInfo

-- The publishing information of a push request; a pull request has none.
unfoldable pub publish_info_of : Option DataAddress → Outcome AddressError (Option PublishInfo)
unfolding data_address_to_publish_info
publish_info_of none = ok none
publish_info_of (some d) = elim (data_address_to_publish_info (some d)) [
  | ok pi ↦ ok (some pi)
  | err e ↦ err e
  | panicked ↦ panicked
]

module _ (x : Extern) (v : Service x) (s : Setup x) where
  -- Once the new request is stored, the message is processed, and the next one made.
  unfoldable pub process_stored :
      TransferRequestMessage
      → Outcome (TransferError x) (Unit {0}) × Log x
      → Outcome (TransferError x) TransferProcess × Log x
  process_stored t (ok _, l) =
      process_transfer_message x v provider s.new_pid true (TransferMessage.request t) l
  process_stored t (err e, l) = (err e, l)
  process_stored t (panicked, l) = (panicked, l)

  unfoldable pub start_transfer :
      TransferRequestMessage → Option (Request x) → Handler x v TransferProcess
  unfolding process_stored
  start_transfer t none l = (panicked, l)
  start_transfer t (some tr) l =
      let (o, tr') = set_provider_pid x s.new_pid tr in
      elim o [
        | ok _ ↦ process_stored t (store_request x v tr' l)
        | err _ ↦ (panicked, l)
        | panicked ↦ (panicked, l)
      ]

  unfoldable pub with_address :
      TransferRequestMessage
      → x.Uuid
      → Agreement x
      → x.Url
      → Outcome AddressError (Option PublishInfo)
      → Handler x v TransferProcess
  unfolding start_transfer
  with_address t c ag cb (ok pi) =
      start_transfer t (new x s.trace c ag t.format cb s.self provider State.initial pi s.requester)
  with_address t c ag cb (err e) = transfer_error x v 400 none
  with_address t c ag cb panicked = λ l. (panicked, l)

  -- `providerTransferRequestHandler`
  unfoldable pub provider_transfer_request : TransferRequestMessage → Handler x v TransferProcess
  unfolding with_address
  provider_transfer_request t l = elim (x.parse_uuid t.consumer_pid) [
    | none ↦ transfer_error x v 400 none l
    | some c ↦ elim (x.parse_uuid t.agreement_id) [
      | none ↦ transfer_error x v 400 none l
      | some a ↦ elim (v.get_agreement l a) [
        | none ↦ transfer_error x v 404 none l
        | some ag ↦ elim (x.parse_url t.callback_address) [
          | none ↦ transfer_error x v 400 none l
          | some cb ↦ with_address t c ag cb (publish_info_of t.data_address) l
        ]
      ]
    ]
  ]

-- A message that the handler means to refuse.
pub data IsRefused (x : Extern) (v : Service x) (l : Log x) (t : TransferRequestMessage)
    : Type 0 where
  bad_consumer : x.parse_uuid t.consumer_pid ≡ none → IsRefused x v l t
  bad_agreement_id : x.parse_uuid t.agreement_id ≡ none → IsRefused x v l t
  no_agreement :
      {a : x.Uuid}
      → x.parse_uuid t.agreement_id ≡ some a
      → v.get_agreement l a ≡ none
      → IsRefused x v l t
  bad_callback : x.parse_url t.callback_address ≡ none → IsRefused x v l t
  bad_address : {e : AddressError} → publish_info_of t.data_address ≡ err e → IsRefused x v l t

module _ (x : Extern) (v : Service x) (s : Setup x) where
  -- A transfer request message that the handler means to refuse, since its consumer PID or its agreement
  -- id is no UUID, its agreement is not known, its callback is no URL or its data address cannot be read,
  -- makes the handler panic before it has stored anything.
  pub provider_transfer_request-IsRefused :
      (t : TransferRequestMessage) (l : Log x)
      → IsRefused x v l t
      → provider_transfer_request x v s t l ≡ (panicked, l)
  unfolding provider_transfer_request transfer_error
  provider_transfer_request-IsRefused t l (bad_consumer e) = ground arith
  provider_transfer_request-IsRefused t l (bad_agreement_id e) = ground arith
  provider_transfer_request-IsRefused t l (no_agreement e f) = ground arith
  provider_transfer_request-IsRefused t l (bad_callback e) = ground arith
  provider_transfer_request-IsRefused t l (bad_address e) = ground arith
