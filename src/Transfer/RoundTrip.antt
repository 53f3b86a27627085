-- ===== src/Transfer/RoundTrip.antt =====
-- dsp/transfer/request.go: a transfer request that is written to a row and read back.
use run_dsp.Prelude.{String, ◌≡◌, refl, Bool, false, Option, none, some, arith}
use run_dsp.Exec.{ok}
use run_dsp.Extern.{Extern, IsLawful}
use run_dsp.Json.{Json, IsJson}
use run_dsp.Columns.{column_of_requester, pid_of-column_of_pid, requester_of-column}
use run_dsp.Role.{role_string, parse_role-role_string}
use run_dsp.Contract.Model.{AgreementRow}
use run_dsp.Transfer.State.{
  direction_string, parse_state-state_string, parse_direction-direction_string,
}
use run_dsp.Transfer.Request.{Request, PublishInfo}
use run_dsp.Transfer.Model.{
  TransferRow, from_model, to_model, columns, with_columns, named, publish_info_of,
  column_of_publish_info,
}

-- What a row and the request that it was made from have in common.
pub record Written (x : Extern) (j : Json x) (tr : Request x) (row : TransferRow) : Type 0 where
  pub info : column_of_publish_info x j tr.publish_info ≡ some row.publish_info
  pub requester : column_of_requester x j tr.requester_info ≡ some row.requester_info
  pub trace : j.trace_info.marshal tr.trace_info ≡ some row.trace_info
  pub direction : direction_string tr.transfer_direction ≡ some row.direction
  pub role : role_string tr.role ≡ ok row.role
  pub rest :
      row ≡ columns x j tr row.publish_info row.requester_info row.trace_info row.direction row.role

module _ (x : Extern) (law : IsLawful x) (j : Json x) (codec : IsJson x j) where
  pub to_model-Written :
      (tr : Request x) (row : TransferRow) → to_model x j tr ≡ ok row → Written x j tr row
  unfolding to_model with_columns named columns
  to_model-Written tr row h = ground arith

  publish_info_of-column :
      (o : Option PublishInfo) (c : Option String)
      → column_of_publish_info x j o ≡ some c
      → publish_info_of x j c ≡ some o
  publish_info_of-column none none h = refl
  publish_info_of-column none (some c) h = cc
  publish_info_of-column (some r) none h = ground arith
  publish_info_of-column (some r) (some c) h =
      ground (arith, codec.publish_info.unmarshal-marshal r c)

  -- A transfer request that `ToModel` writes to a row is read back by `FromModel` as it was, if the row
  -- of its agreement, by the id in that column, is joined. Only the marks that are not kept are gone: it
  -- counts neither as modified nor as locked, and it is read-only as the reading asks.
  pub transfer_model_round_trip :
      (tr : Request x) (row : TransferRow) (g : AgreementRow) (ro : Bool)
      → to_model x j tr ≡ ok row
      → g.id ≡ row.agreement_id
      → from_model x j (record row { agreement = g }) ro
        ≡ some (record tr { modified = false; ro = ro; locked = false })
  unfolding from_model columns
  transfer_model_round_trip tr row g ro h k =
      let w = to_model-Written tr row h in
      ground (
        arith,
        w.rest,
        pid_of-column_of_pid x law tr.provider_pid,
        pid_of-column_of_pid x law tr.consumer_pid,
        law.parse-urn tr.agreement_id,
        law.parse-url_string tr.callback,
        law.parse-url_string tr.self,
        parse_role-role_string tr.role w.role,
        publish_info_of-column tr.publish_info row.publish_info w.info,
        codec.trace_info.unmarshal-marshal tr.trace_info row.trace_info w.trace,
        requester_of-column x j codec tr.requester_info row.requester_info w.requester,
        parse_direction-direction_string tr.transfer_direction w.direction,
        parse_state-state_string tr.state,
      )
