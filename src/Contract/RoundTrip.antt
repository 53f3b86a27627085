-- ===== src/Contract/RoundTrip.antt =====
-- dsp/contract/negotiation.go: a negotiation that is written to a row and read back.
use run_dsp.Prelude.{String, ◌≡◌, refl, Bool, false, Option, none, some, eq_iff, arith}
use run_dsp.Exec.{ok}
use run_dsp.Extern.{Extern, IsLawful}
use run_dsp.Json.{Json, IsJson, as_stored}
use run_dsp.Role.{role_string, parse_role-role_string}
use run_dsp.Odrl.{Agreement}
use run_dsp.Shared.Messages.{TraceInfo}
use run_dsp.Contract.State.{parse_state-state_string}
use run_dsp.Contract.Negotiation.{Negotiation}
use run_dsp.Columns.{column_of_requester, pid_of-column_of_pid, requester_of-column}
use run_dsp.Contract.Model.{
  ContractRow, AgreementRow, from_odrl_agreement, to_odrl_agreement, agreement_of, trace_of,
  from_model, to_model, columns, with_columns, named,
}

-- The row that the relation joins is the one that the agreement was written to.
abbrev pub IsJoined : (x : Extern) → Json x → Option (Agreement x) → Option AgreementRow → Type 0
IsJoined x j none none = Unit
IsJoined x j (some a) (some r) = from_odrl_agreement x j a ≡ some r
IsJoined x j _ _ = ⊥

-- The agreement as the database keeps it.
abbrev pub stored_agreement : (x : Extern) → Json x → Option (Agreement x) → Option (Agreement x)
stored_agreement x j none = none
stored_agreement x j (some a) = some (as_stored x j a)

-- What a row and the negotiation that it was made from have in common.
pub record Written (x : Extern) (j : Json x) (cn : Negotiation x) (row : ContractRow) : Type 0 where
  pub offer : j.offer.marshal cn.offer ≡ some row.offer
  pub requester : column_of_requester x j cn.requester_info ≡ some row.requester_info
  pub trace : j.trace_info.marshal cn.trace_info ≡ some row.trace_info
  pub role : role_string cn.role ≡ ok row.role
  pub rest : row ≡ columns x j cn row.offer row.requester_info row.trace_info row.role

module _ (x : Extern) (law : IsLawful x) (j : Json x) (codec : IsJson x j) where
  pub agreement_of-IsJoined :
      (o : Option (Agreement x)) (r : Option AgreementRow)
      → IsJoined x j o r
      → agreement_of x j r ≡ some (stored_agreement x j o)
  unfolding agreement_of to_odrl_agreement from_odrl_agreement
  agreement_of-IsJoined none none h = refl
  agreement_of-IsJoined none (some r) h = absurd h
  agreement_of-IsJoined (some a) none h = absurd h
  agreement_of-IsJoined (some a) (some r) h = ground (arith, codec.unmarshal_agreement a r.odrl)

  trace_of-marshal :
      (t : TraceInfo) (s : String) → j.trace_info.marshal t ≡ some s → trace_of x j s ≡ some t
  unfolding trace_of
  trace_of-marshal t s h =
      ground (
        arith,
        eq_iff s "",
        codec.trace_info.unmarshal-marshal t s,
        codec.trace_info.unmarshal-empty,
      )

  pub to_model-Written :
      (cn : Negotiation x) (row : ContractRow) → to_model x j cn ≡ ok row → Written x j cn row
  unfolding to_model with_columns named columns
  to_model-Written cn row h = ground arith

  -- A negotiation that `ToModel` writes to a row, with the row of its agreement joined, is read back by
  -- `FromModel` as it was, but for its agreement and for the marks that are not kept. The agreement
  -- comes back without the ID of its policy, and with its time as JSON keeps it. The negotiation counts
  -- neither as initial nor as modified nor as locked, its agreement is not new, and it is read-only as
  -- the reading asks.
  pub contract_model_round_trip :
      (cn : Negotiation x) (row : ContractRow) (g : Option AgreementRow) (ro : Bool)
      → to_model x j cn ≡ ok row
      → IsJoined x j cn.agreement g
      → from_model x j (record row { agreement = g }) ro
        ≡ some (record cn {
          agreement = stored_agreement x j cn.agreement;
          initial = false;
          modified = false;
          new_agreement = false;
          ro = ro;
          locked = false;
        })
  unfolding from_model columns
  contract_model_round_trip cn row g ro h k =
      let w = to_model-Written cn row h in
      ground (
        arith,
        w.rest,
        pid_of-column_of_pid x law cn.provider_pid,
        pid_of-column_of_pid x law cn.consumer_pid,
        codec.offer.unmarshal-marshal cn.offer row.offer w.offer,
        agreement_of-IsJoined cn.agreement g k,
        law.parse-url_string cn.callback,
        law.parse-url_string cn.self,
        parse_role-role_string cn.role w.role,
        trace_of-marshal cn.trace_info row.trace_info w.trace,
        requester_of-column x j codec cn.requester_info row.requester_info w.requester,
        parse_state-state_string cn.state,
      )
