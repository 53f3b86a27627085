-- ===== src/Contract/Model.antt =====
-- `FromModel` and `ToModel` of dsp/contract/negotiation.go, and the database rows of
-- dsp/persistence/backends/sqlite/models/models.go, without the times that the database keeps.
use run_dsp.Prelude.{ℕ, String, Bool, false, Option, none, some, str_eq, if◌then◌else◌}
use run_dsp.Optional.{◌>>=◌}
use run_dsp.Exec.{Outcome, ok, err, panicked}
use run_dsp.Extern.{Extern}
use run_dsp.Json.{Json}
use run_dsp.Columns.{pid_of, column_of_pid, requester_of, column_of_requester, role_of}
use run_dsp.Role.{RoleError, parse_role, role_string}
use run_dsp.Odrl.{Agreement}
use run_dsp.Shared.Messages.{TraceInfo}
use run_dsp.Contract.State.{state_string, parse_state, of_string}
use run_dsp.Contract.Negotiation.{Negotiation}

-- `models.Agreement`
pub record AgreementRow : Type 0 where
  pub id : String
  pub odrl : String

-- `models.ContractNegotiation`; `agreement` is the row that the relation joins.
pub record ContractRow : Type 0 where
  pub id : ℕ
  pub provider_pid : Option String
  pub consumer_pid : Option String
  pub agreement_id : Option String
  pub agreement : Option AgreementRow
  pub offer : String
  pub state : String
  pub callback_url : String
  pub self_url : String
  pub role : String
  pub auto_accept : Bool
  pub requester_info : Option String
  pub trace_info : String
  pub locked : Bool

-- The trace of an old row may be missing.
abbrev pub no_trace : TraceInfo
no_trace = record { trace_id = ""; span_id = ""; trace_flags = 0 }

module _ (x : Extern) (j : Json x) where
  unfoldable pub from_odrl_agreement : Agreement x → Option AgreementRow
  from_odrl_agreement ag = do
    id ← x.parse_uuid ag.id
    text ← j.agreement.marshal ag
    some (record { id = x.urn id; odrl = text })

  unfoldable pub to_odrl_agreement : AgreementRow → Option (Agreement x)
  to_odrl_agreement a = j.agreement.unmarshal a.odrl

  unfoldable pub agreement_of : Option AgreementRow → Option (Option (Agreement x))
  unfolding to_odrl_agreement
  agreement_of none = some none
  agreement_of (some a) = do o ← to_odrl_agreement a; some (some o)

  unfoldable pub trace_of : String → Option TraceInfo
  trace_of s = if str_eq s "" then some no_trace else j.trace_info.unmarshal s

  unfoldable pub from_model : ContractRow → (ro : Bool) → Option (Negotiation x)
  unfolding agreement_of trace_of
  from_model neg ro = do
    ppid ← pid_of x neg.provider_pid
    cpid ← pid_of x neg.consumer_pid
    offer ← j.offer.unmarshal neg.offer
    agreement ← agreement_of neg.agreement
    callback ← x.parse_url neg.callback_url
    self ← x.parse_url neg.self_url
    role ← role_of (parse_role neg.role)
    trace ← trace_of neg.trace_info
    requester ← requester_of x j neg.requester_info
    some (record {
      provider_pid = ppid;
      consumer_pid = cpid;
      state = parse_state (of_string neg.state);
      offer = offer;
      agreement = agreement;
      callback = callback;
      self = self;
      role = role;
      auto_accept = neg.auto_accept;
      initial = false;
      ro = ro;
      modified = false;
      new_agreement = false;
      trace_info = trace;
      requester_info = requester;
      internal_id = neg.id;
      locked = neg.locked;
    })

  abbrev pub id_of : Option (Agreement x) → Option String
  id_of none = none
  id_of (some a) = some a.id

  -- Every column but the role's, whose name is made last and may panic.
  unfoldable pub columns :
      Negotiation x
      → (offer : String) → (requester : Option String) → (trace role : String) → ContractRow
  columns cn offer requester trace role = record {
    id = cn.internal_id;
    provider_pid = column_of_pid x cn.provider_pid;
    consumer_pid = column_of_pid x cn.consumer_pid;
    agreement_id = id_of cn.agreement;
    agreement = none;
    offer = offer;
    state = state_string cn.state;
    callback_url = x.url_string cn.callback;
    self_url = x.url_string cn.self;
    role = role;
    auto_accept = cn.auto_accept;
    requester_info = requester;
    trace_info = trace;
    locked = false;
  }

  unfoldable pub named :
      (String → ContractRow) → Outcome RoleError String → Outcome (Unit {0}) ContractRow
  named row (ok role) = ok (row role)
  named row (err _) = err tt
  named row panicked = panicked

  unfoldable pub with_columns :
      Negotiation x → Option (String → ContractRow) → Outcome (Unit {0}) ContractRow
  unfolding named
  with_columns cn none = err tt
  with_columns cn (some row) = named row (role_string cn.role)

  -- `ToModel`; it returns an error where a column cannot be marshalled.
  unfoldable pub to_model : Negotiation x → Outcome (Unit {0}) ContractRow
  unfolding with_columns columns
  to_model cn = with_columns cn (do
    offer ← j.offer.marshal cn.offer
    requester ← column_of_requester x j cn.requester_info
    trace ← j.trace_info.marshal cn.trace_info
    some (columns cn offer requester trace))
