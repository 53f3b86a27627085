-- ===== src/Transfer/Model.antt =====
-- `FromModel` and `ToModel` of dsp/transfer/request.go, and the database row of
-- dsp/persistence/backends/sqlite/models/models.go, without the times that the database keeps.
use run_dsp.Prelude.{ℕ, String, Bool, false, Option, none, some}
use run_dsp.Optional.{◌>>=◌}
use run_dsp.Exec.{Outcome, ok, err, panicked}
use run_dsp.Extern.{Extern}
use run_dsp.Json.{Json}
use run_dsp.Columns.{pid_of, column_of_pid, requester_of, column_of_requester, role_of}
use run_dsp.Role.{RoleError, parse_role, role_string}
use run_dsp.Contract.Model.{AgreementRow}
use run_dsp.Transfer.State.{state_string, parse_state, parse_direction, direction_string}
use run_dsp.Transfer.Request.{Request, PublishInfo}

-- `models.TransferRequest`; `agreement` is the row that the relation joins.
pub record TransferRow : Type 0 where
  pub id : ℕ
  pub provider_pid : Option String
  pub consumer_pid : Option String
  pub agreement_id : String
  pub agreement : AgreementRow
  pub target : String
  pub format : String
  pub publish_info : Option String
  pub direction : String
  pub state : String
  pub callback_url : String
  pub self_url : String
  pub role : String
  pub requester_info : Option String
  pub trace_info : String
  pub locked : Bool

-- The zero value of a row that no relation has filled.
abbrev pub no_agreement : AgreementRow
no_agreement = record { id = ""; odrl = "" }

module _ (x : Extern) (j : Json x) where
  abbrev pub publish_info_of : Option String → Option (Option PublishInfo)
  publish_info_of none = some none
  publish_info_of (some s) = do pi ← j.publish_info.unmarshal s; some (some pi)

  abbrev pub column_of_publish_info : Option PublishInfo → Option (Option String)
  column_of_publish_info none = some none
  column_of_publish_info (some pi) = do s ← j.publish_info.marshal pi; some (some s)

  unfoldable pub from_model : TransferRow → (ro : Bool) → Option (Request x)
  from_model req ro = do
    ppid ← pid_of x req.provider_pid
    cpid ← pid_of x req.consumer_pid
    agreement_id ← x.parse_uuid req.agreement.id
    callback ← x.parse_url req.callback_url
    self ← x.parse_url req.self_url
    role ← role_of (parse_role req.role)
    info ← publish_info_of req.publish_info
    trace ← j.trace_info.unmarshal req.trace_info
    requester ← requester_of x j req.requester_info
    direction ← parse_direction req.direction
    some (record {
      state = parse_state req.state;
      provider_pid = ppid;
      consumer_pid = cpid;
      agreement_id = agreement_id;
      target = req.target;
      format = req.format;
      callback = callback;
      self = self;
      role = role;
      publish_info = info;
      requester_info = requester;
      transfer_direction = direction;
      ro = ro;
      modified = false;
      trace_info = trace;
      internal_id = req.id;
      locked = req.locked;
    })

  -- Every column, from the texts of those that can fail or panic.
  unfoldable pub columns :
      Request x → (info requester : Option String) → (trace direction role : String) → TransferRow
  columns tr info requester trace direction role = record {
    id = tr.internal_id;
    provider_pid = column_of_pid x tr.provider_pid;
    consumer_pid = column_of_pid x tr.consumer_pid;
    agreement_id = x.urn tr.agreement_id;
    agreement = no_agreement;
    target = tr.target;
    format = tr.format;
    publish_info = info;
    direction = direction;
    state = state_string tr.state;
    callback_url = x.url_string tr.callback;
    self_url = x.url_string tr.self;
    role = role;
    requester_info = requester;
    trace_info = trace;
    locked = false;
  }

  -- The names of the direction and of the role are made last, and may panic.
  unfoldable pub named :
      (direction : Option String)
      → Outcome RoleError String
      → (String → String → TransferRow)
      → Outcome (Unit {0}) TransferRow
  named none role row = panicked
  named (some d) (ok r) row = ok (row d r)
  named (some d) (err _) row = err tt
  named (some d) panicked row = panicked

  unfoldable pub with_columns :
      Request x → Option (String → String → TransferRow) → Outcome (Unit {0}) TransferRow
  unfolding named
  with_columns tr none = err tt
  with_columns tr (some row) =
      named (direction_string tr.transfer_direction) (role_string tr.role) row

  -- `ToModel`; it returns an error where a column cannot be marshalled.
  unfoldable pub to_model : Request x → Outcome (Unit {0}) TransferRow
  unfolding with_columns columns
  to_model tr = with_columns tr (do
    info ← column_of_publish_info tr.publish_info
    requester ← column_of_requester x j tr.requester_info
    trace ← j.trace_info.marshal tr.trace_info
    some (columns tr info requester trace))
