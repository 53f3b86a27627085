-- ===== src/Transfer/Request.antt =====
-- dsp/transfer/request.go: the transfer request and its methods, with the same conventions as
-- Contract/Negotiation.
use run_dsp.Prelude.{ℕ, String, Bool, true, false, Option, none, some, if◌then◌else◌}
use run_dsp.Exec.{ok, err, panicked, Exec, modify, ◌>>◌}
use run_dsp.Extern.{Extern}
use run_dsp.Role.{DataspaceRole, consumer, provider, undefined}
use run_dsp.Jsonld.{get_dsp_context}
use run_dsp.Odrl.{Agreement}
use run_dsp.Shared.Ids.{urn_to_raw_id}
use run_dsp.Shared.Messages.{TraceInfo}
use run_dsp.Shared.TransferMessages.{TransferProcess}
use run_dsp.Transfer.State.{State, Direction, pull, push, state_string, valid_transitions, contains}

-- dsrpc.AuthenticationType; `other n` is any further value of the generated enumeration.
pub data AuthenticationType : Type 0 where
  unspecified basic bearer : AuthenticationType
  other : ℕ → AuthenticationType

-- dsrpc.PublishInfo
pub record PublishInfo : Type 0 where
  pub url : String
  pub authentication_type : AuthenticationType
  pub username : String
  pub password : String

pub record Request (x : Extern) : Type 0 where
  pub state : State
  pub provider_pid : x.Uuid
  pub consumer_pid : x.Uuid
  pub agreement_id : x.Uuid
  pub target : String
  pub format : String
  pub callback : x.Url
  pub self : x.Url
  pub role : DataspaceRole
  pub publish_info : Option PublishInfo
  pub requester_info : Option x.RequesterInfo
  pub transfer_direction : Direction
  pub ro : Bool
  pub modified : Bool
  pub trace_info : TraceInfo
  pub internal_id : ℕ
  pub locked : Bool

pub data SetError : Type 0 where
  no_transition : State → State → SetError

module _ (x : Extern) where
  abbrev pub Method : Type 0 → Type 0
  Method A = Exec SetError (Request x) A

  request_at :
      TraceInfo
      → x.Uuid
      → (agreement_id : x.Uuid) → (target format : String) → (callback self : x.Url) → DataspaceRole
      → State
      → Option PublishInfo
      → Option x.RequesterInfo
      → Request x
  request_at trace cpid agreement_id target format callback self role state info requester =
      record {
        state = state;
        provider_pid = x.nil_uuid;
        consumer_pid = cpid;
        agreement_id = agreement_id;
        target = target;
        format = format;
        callback = callback;
        self = self;
        role = role;
        publish_info = info;
        requester_info = requester;
        transfer_direction = elim info [ none ↦ pull | some _ ↦ push ];
        ro = false;
        modified = true;
        trace_info = trace;
        internal_id = 0;
        locked = false;
      }

  -- `New`; it panics, here `none`, on a malformed target and on an agreement id that is no UUID.
  unfoldable pub new :
      TraceInfo
      → x.Uuid
      → Agreement x
      → (format : String) → (callback self : x.Url) → DataspaceRole
      → State
      → Option PublishInfo
      → Option x.RequesterInfo
      → Option (Request x)
  unfolding request_at
  new trace cpid agreement format callback self role state info requester =
      elim (urn_to_raw_id x agreement.target) [
        | none ↦ none
        | some target ↦ elim (x.parse_uuid agreement.id) [
          | none ↦ none
          | some id ↦
              some (request_at trace cpid id target format callback self role state info requester)
        ]
      ]

  -- `GetLocalPID`; `none` is its panic.
  unfoldable pub local_pid : Request x → Option x.Uuid
  local_pid tr = elim tr.role [
    | consumer ↦ some tr.consumer_pid
    | provider ↦ some tr.provider_pid
    | undefined _ ↦ none
  ]

  -- `panicRO`
  abbrev panic_ro : Method Unit
  panic_ro tr = if tr.ro then (panicked, tr) else (ok tt, tr)

  -- The pointer that is set may be nil.
  unfoldable pub set_publish_info : Option PublishInfo → Method Unit
  set_publish_info pi = do panic_ro; modify (λ tr. record tr { publish_info = pi; modified = true })

  unfoldable pub set_provider_pid : x.Uuid → Method Unit
  set_provider_pid id = do panic_ro; modify (λ tr. record tr { provider_pid = id; modified = true })

  unfoldable pub set_state : State → Method Unit
  set_state state = do
    panic_ro
    λ tr.
        if contains state (valid_transitions tr.state)
        then (ok tt, record tr { state = state; modified = true })
        else (err (no_transition tr.state state), tr)

  abbrev pub set_read_only : Request x → Request x
  set_read_only tr = record tr { ro = true }

  -- `GetTransferProcess`
  unfoldable pub get_transfer_process : Request x → TransferProcess
  get_transfer_process tr = record {
    context = get_dsp_context;
    type = "dspace:TransferProcess";
    provider_pid = x.urn tr.provider_pid;
    consumer_pid = x.urn tr.consumer_pid;
    state = state_string tr.state;
  }
