-- ===== src/Examples/Storing.antt =====
-- Database rows: codecs that meet their laws, and the theorems at concrete inputs.
use run_dsp.Prelude.{
  String, ◌≡◌, refl, true, false, Bool, ◌&&◌, Option, none, some, arith, str_eq, nat_eq, eq_iff,
  Bool-cases, inl, inr, if◌then◌else◌,
}
use run_dsp.Exec.{ok}
use run_dsp.Shared.Messages.{TraceInfo}
use run_dsp.Odrl.{Offer, no_policy}
use run_dsp.Json.{Codec, IsCodec, Json, IsJson}
use run_dsp.Contract.State.{State, state_string, parse_state}
use run_dsp.Contract.Model.{
  ContractRow, AgreementRow, from_model, to_model, from_odrl_agreement, no_trace,
}
use run_dsp.Contract.RoundTrip.{contract_model_round_trip}
use run_dsp.Role.{role_string, parse_role}
use run_dsp.Transfer.State.{
  state_string as transfer_state_string, direction_string, parse_state as parse_transfer_state,
  parse_direction,
}
use run_dsp.Transfer.Request.{Request}
use run_dsp.Transfer.Model.{
  TransferRow, no_agreement, from_model as from_transfer_model, to_model as to_transfer_model,
}
use run_dsp.Transfer.RoundTrip.{transfer_model_round_trip}
use run_dsp.Contract.Negotiation.{Negotiation}
use run_dsp.Examples.Transfers.{request}
use run_dsp.Examples.World.{world, world-IsLawful, unary, read_unary, read_url, write_url}
use run_dsp.Examples.Contracts.{negotiation}
use run_dsp.Examples.AgreementText.{
  is_nil, signed, agreement_on, is_agreement, write_agreement, read_agreement,
  read_agreement-write_agreement,
}

-- Nothing can be written.
abbrev closed : (A : Type 0) → Codec A
closed A = record { marshal = λ _. none; unmarshal = λ _. none }

closed-IsCodec : (A : Type 0) → IsCodec (closed A)
closed-IsCodec A = record { unmarshal-marshal = λ a s h. cc; unmarshal-empty = refl }

-- An offer without a policy is written by its target.
is_plain : Offer world → Bool
is_plain o =
    let policy = o.message_offer.policy in
    str_eq o.message_offer.type "odrl:Offer"
    && str_eq policy.rule.assigner ""
    && str_eq policy.rule.assignee ""
    && str_eq policy.id ""
    && str_eq policy.provider_id ""
    && is_nil policy.profile
    && is_nil policy.permission
    && is_nil policy.obligation
    && is_nil policy.prohibition

plain_offer : String → Offer world
plain_offer t = record {
  message_offer = record { policy = no_policy world; type = "odrl:Offer"; target = t };
}

is_plain_iff : (o : Offer world) → is_plain o ≡ true → o ≡ plain_offer o.message_offer.target
unfolding is_plain plain_offer is_nil
is_plain_iff o h =
    let policy = o.message_offer.policy in
    ground (
      arith,
      eq_iff o.message_offer.type "odrl:Offer",
      eq_iff policy.rule.assigner "",
      eq_iff policy.rule.assignee "",
      eq_iff policy.id "",
      eq_iff policy.provider_id "",
    )

pub write_offer : Offer world → Option String
write_offer o = if is_plain o then some (write_url o.message_offer.target) else none

pub read_offer : String → Option (Offer world)
unfolding plain_offer
read_offer s = elim (read_url s) [ none ↦ none | some t ↦ some (plain_offer t) ]

write_offer-plain :
    (o : Offer world) (b : Bool)
    → is_plain o ≡ b
    → write_offer o ≡ (if b then some (write_url o.message_offer.target) else none)
unfolding write_offer
write_offer-plain o b e = rw (e)

read_offer-write_url : (t : String) → read_offer (write_url t) ≡ some (plain_offer t)
unfolding read_offer
read_offer-write_url t = refl

read_offer-write_offer :
    (o : Offer world) (s : String) → write_offer o ≡ some s → read_offer s ≡ some o
read_offer-write_offer o s h = elim (Bool-cases (is_plain o)) [
  | inl e ↦
      cc (
        h,
        write_offer-plain o true e,
        read_offer-write_url o.message_offer.target,
        is_plain_iff o e,
      )
  | inr e ↦ cc (h, write_offer-plain o false e)
]

-- Of the traces, the empty one is written.
is_no_trace : TraceInfo → Bool
is_no_trace t = str_eq t.trace_id "" && str_eq t.span_id "" && nat_eq t.trace_flags 0

no_trace_of : (t : TraceInfo) → is_no_trace t ≡ true → t ≡ no_trace
unfolding is_no_trace
no_trace_of t h = ground (arith, eq_iff t.trace_id "", eq_iff t.span_id "")

pub write_trace : TraceInfo → Option String
write_trace t = if is_no_trace t then some "none" else none

pub read_trace : String → Option TraceInfo
read_trace s = if str_eq s "none" then some no_trace else none

write_trace-none :
    (t : TraceInfo) (b : Bool)
    → is_no_trace t ≡ b
    → write_trace t ≡ (if b then some "none" else none)
unfolding write_trace
write_trace-none t b e = rw (e)

read_trace-none : read_trace "none" ≡ some no_trace
unfolding read_trace
read_trace-none = refl

read_trace-write_trace :
    (t : TraceInfo) (s : String) → write_trace t ≡ some s → read_trace s ≡ some t
read_trace-write_trace t s h = elim (Bool-cases (is_no_trace t)) [
  | inl e ↦ cc (h, write_trace-none t true e, read_trace-none, no_trace_of t e)
  | inr e ↦ cc (h, write_trace-none t false e)
]

abbrev pub json : Json world
json = record {
  stored_time = λ t. t;
  offer = record { marshal = write_offer; unmarshal = read_offer };
  agreement = record { marshal = write_agreement; unmarshal = read_agreement };
  requester_info = record { marshal = λ i. some (write_url i); unmarshal = read_url };
  trace_info = record { marshal = write_trace; unmarshal = read_trace };
  publish_info = closed _;
}

pub json-IsJson : IsJson world json
unfolding read_offer read_trace
json-IsJson = record {
  offer = record { unmarshal-marshal = read_offer-write_offer; unmarshal-empty = refl };
  unmarshal_agreement = read_agreement-write_agreement;
  requester_info = record { unmarshal-marshal = λ a s h. ground arith; unmarshal-empty = refl };
  trace_info = record { unmarshal-marshal = read_trace-write_trace; unmarshal-empty = refl };
  publish_info = closed-IsCodec _;
}

abbrev pub row : ContractRow
row = record {
  id = 1;
  provider_pid = some "x";
  consumer_pid = some "xx";
  agreement_id = none;
  agreement = none;
  offer = "/urn:uuid:7";
  state = "dspace:AGREED";
  callback_url = "/them";
  self_url = "/us";
  role = "Provider";
  auto_accept = false;
  requester_info = none;
  trace_info = "none";
  locked = false;
}

-- The negotiation with the agreement, and its two rows.
abbrev pub with_agreement : Negotiation world
with_agreement = record (negotiation State.agreed) { agreement = some signed }

abbrev pub agreement_row : AgreementRow
agreement_row = record { id = "xxx"; odrl = write_url "urn:uuid:7" }

abbrev pub signed_row : ContractRow
signed_row = record row { agreement_id = some "xxx" }

pub writes_row : to_model world json with_agreement ≡ ok signed_row
unfolding to_model write_offer is_plain is_nil write_trace is_no_trace unary state_string
    role_string
writes_row = refl

-- The same for a negotiation that was changed, and is read for writing.
pub writes_changed_row :
    to_model world json (record with_agreement { modified = true }) ≡ ok signed_row
unfolding to_model write_offer is_plain is_nil write_trace is_no_trace unary state_string
    role_string
writes_changed_row = refl

pub writes_agreement_row : from_odrl_agreement world json signed ≡ some agreement_row
unfolding from_odrl_agreement write_agreement is_agreement is_nil unary read_unary
writes_agreement_row = refl

pub reads_row :
    from_model world json
      (record signed_row { locked = true; agreement = some agreement_row })
      false
    ≡ some (record (negotiation State.agreed) {
      agreement = some (agreement_on "urn:uuid:7");
      ro = false;
      locked = true;
    })
unfolding from_model read_offer plain_offer read_trace read_unary parse_role parse_state
    read_agreement agreement_on
reads_row = refl

contract_model_round_trip_example :
    from_model world json (record signed_row { agreement = some agreement_row }) true
    ≡ some (record (negotiation State.agreed) {
      agreement = some (agreement_on "urn:uuid:7");
      ro = true;
      locked = false;
    })
unfolding agreement_on
contract_model_round_trip_example =
    contract_model_round_trip world world-IsLawful json json-IsJson with_agreement signed_row
      (some agreement_row) true writes_row writes_agreement_row

abbrev pub transfer_row : TransferRow
transfer_row = record {
  id = 1;
  provider_pid = some "x";
  consumer_pid = some "xx";
  agreement_id = "xxx";
  agreement = record { id = "xxx"; odrl = "" };
  target = "7";
  format = "HTTP_PULL";
  publish_info = none;
  direction = "PULL";
  state = "dspace:STARTED";
  callback_url = "/them";
  self_url = "/us";
  role = "Provider";
  requester_info = none;
  trace_info = "none";
  locked = false;
}

-- A transfer that no data address has been made for yet.
abbrev pub unpublished : Request world
unpublished = record request { publish_info = none }

-- The same for a transfer that was changed, and is read for writing.
pub writes_changed_transfer :
    to_transfer_model world json (record unpublished { modified = true })
    ≡ ok (record transfer_row { agreement = no_agreement })
unfolding to_transfer_model write_trace is_no_trace unary transfer_state_string role_string
    direction_string
writes_changed_transfer = refl

pub reads_transfer_row :
    from_transfer_model world json (record transfer_row { locked = true }) false
    ≡ some (record unpublished { ro = false; locked = true })
unfolding from_transfer_model read_trace read_unary parse_role parse_transfer_state parse_direction
reads_transfer_row = refl

writes_transfer_row :
    to_transfer_model world json unpublished ≡ ok (record transfer_row { agreement = no_agreement })
unfolding to_transfer_model write_trace is_no_trace unary transfer_state_string role_string
    direction_string
writes_transfer_row = refl

transfer_model_round_trip_example :
    from_transfer_model world json transfer_row true
    ≡ some (record unpublished { ro = true; locked = false })
transfer_model_round_trip_example =
    transfer_model_round_trip world world-IsLawful json json-IsJson unpublished
      (record transfer_row { agreement = no_agreement }) transfer_row.agreement true
      writes_transfer_row refl
