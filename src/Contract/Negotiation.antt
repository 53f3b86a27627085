-- ===== src/Contract/Negotiation.antt =====
-- dsp/contract/negotiation.go: the negotiation and its methods. A method of `*Negotiation` that
-- writes is an action on the record; the pointers `callback` and `self` are never nil in the
-- program, and are plain URLs here. `ctx` and the log fields are left out.
use run_dsp.Prelude.{ℕ, String, Bool, true, false, Option, none, some, if◌then◌else◌}
use run_dsp.Exec.{ok, err, panicked, Exec, raise, modify, ◌>>◌}
use run_dsp.Extern.{Extern}
use run_dsp.Role.{DataspaceRole, consumer, provider, undefined}
use run_dsp.Jsonld.{get_dsp_context}
use run_dsp.Odrl.{Offer, Agreement}
use run_dsp.Shared.Messages.{TraceInfo, ContractNegotiation}
use run_dsp.Contract.State.{State, state_string, valid_transitions, contains}

pub record Negotiation (x : Extern) : Type 0 where
  pub provider_pid : x.Uuid
  pub consumer_pid : x.Uuid
  pub state : State
  pub offer : Offer x
  pub agreement : Option (Agreement x)
  pub callback : x.Url
  pub self : x.Url
  pub role : DataspaceRole
  pub auto_accept : Bool
  pub initial : Bool
  pub ro : Bool
  pub modified : Bool
  pub new_agreement : Bool
  pub trace_info : TraceInfo
  pub requester_info : Option x.RequesterInfo
  pub internal_id : ℕ
  pub locked : Bool

-- What a setter can refuse.
pub data SetError : Type 0 where
  no_transition : State → State → SetError
  invalid_url : String → SetError

module _ (x : Extern) where
  abbrev pub Method : Type 0 → Type 0
  Method A = Exec SetError (Negotiation x) A

  -- `New`; the internal id and the flags that the source does not name are Go's zero values.
  unfoldable pub new :
      TraceInfo
      → (provider_pid consumer_pid : x.Uuid) → State
      → Offer x
      → (callback self : x.Url) → DataspaceRole
      → Bool
      → Option x.RequesterInfo
      → Negotiation x
  new trace ppid cpid state offer callback self role auto_accept info = record {
    provider_pid = ppid;
    consumer_pid = cpid;
    state = state;
    offer = offer;
    agreement = none;
    callback = callback;
    self = self;
    role = role;
    auto_accept = auto_accept;
    initial = false;
    ro = false;
    modified = true;
    new_agreement = false;
    trace_info = trace;
    requester_info = info;
    internal_id = 0;
    locked = false;
  }

  -- `GetLocalPID`: a panic, here `none`, if the role is invalid. `TryLocalPID` is the same function,
  -- with `false` for the panic.
  unfoldable pub local_pid : Negotiation x → Option x.Uuid
  local_pid cn = elim cn.role [
    | consumer ↦ some cn.consumer_pid
    | provider ↦ some cn.provider_pid
    | undefined _ ↦ none
  ]

  unfoldable pub remote_pid : Negotiation x → Option x.Uuid
  remote_pid cn = elim cn.role [
    | consumer ↦ some cn.provider_pid
    | provider ↦ some cn.consumer_pid
    | undefined _ ↦ none
  ]

  -- `panicRO`
  abbrev panic_ro : Method Unit
  panic_ro cn = if cn.ro then (panicked, cn) else (ok tt, cn)

  unfoldable pub set_provider_pid : x.Uuid → Method Unit
  set_provider_pid u = do panic_ro; modify (λ cn. record cn { provider_pid = u; modified = true })

  unfoldable pub set_consumer_pid : x.Uuid → Method Unit
  set_consumer_pid u = do panic_ro; modify (λ cn. record cn { consumer_pid = u; modified = true })

  unfoldable pub set_agreement : Agreement x → Method Unit
  set_agreement a = do
    panic_ro
    modify (λ cn. record cn { agreement = some a; new_agreement = true; modified = true })

  unfoldable pub set_state : State → Method Unit
  set_state state = do
    panic_ro
    λ cn.
        if contains state (valid_transitions cn.state)
        then (ok tt, record cn { state = state; modified = true })
        else (err (no_transition cn.state state), cn)

  -- `SetCallback` does not look at `ro`.
  unfoldable pub set_callback : String → Method Unit
  set_callback u = elim (x.parse_url u) [
    | none ↦ raise (invalid_url u)
    | some nu ↦ modify (λ cn. record cn { callback = nu; modified = true })
  ]

  abbrev pub set_auto_accept : Negotiation x → Negotiation x
  set_auto_accept cn = record cn { auto_accept = true }

  abbrev pub set_read_only : Negotiation x → Negotiation x
  set_read_only cn = record cn { ro = true }

  abbrev pub set_initial : Negotiation x → Negotiation x
  set_initial cn = record cn { initial = true }

  abbrev pub unset_initial : Negotiation x → Negotiation x
  unset_initial cn = record cn { initial = false }

  -- `GetContractNegotiation`
  unfoldable pub get_contract_negotiation : Negotiation x → ContractNegotiation
  get_contract_negotiation cn = record {
    context = get_dsp_context;
    type = "dspace:ContractNegotiation";
    provider_pid = x.urn cn.provider_pid;
    consumer_pid = x.urn cn.consumer_pid;
    state = state_string cn.state;
  }
