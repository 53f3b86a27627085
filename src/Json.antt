-- ===== src/Json.antt =====
-- encoding/json on each type that the program keeps in its database, as a parameter: `none` is an error.
use run_dsp.Prelude.{String, ◌≡◌, Option, none, some}
use run_dsp.Extern.{Extern}
use run_dsp.Odrl.{Offer, Agreement}
use run_dsp.Shared.Messages.{TraceInfo}
use run_dsp.Transfer.Request.{PublishInfo}

pub record Codec (A : Type 0) : Type 0 where
  pub marshal : A → Option String
  pub unmarshal : String → Option A

-- What is marshalled is read back, for values whose texts are UTF-8, as those that are received are; and no
-- value has an empty text.
pub record IsCodec {A : Type 0} (c : Codec A) : Type 0 where
  pub unmarshal-marshal : (a : A) (s : String) → c.marshal a ≡ some s → c.unmarshal s ≡ some a
  pub unmarshal-empty : c.unmarshal "" ≡ none

-- `stored_time` is what is left of a time that is marshalled: it loses its monotonic clock reading.
pub record Json (x : Extern) : Type 0 where
  pub stored_time : x.Time → x.Time
  pub offer : Codec (Offer x)
  pub agreement : Codec (Agreement x)
  pub requester_info : Codec x.RequesterInfo
  pub trace_info : Codec TraceInfo
  pub publish_info : Codec PublishInfo

-- An agreement that was marshalled and read back. The `ID` of its `PolicyClass` is lost, since that of
-- the agreement has the same key.
abbrev pub as_stored : (x : Extern) → Json x → Agreement x → Agreement x
as_stored x j a = record a {
  policy = record a.policy { id = "" };
  timestamp = j.stored_time a.timestamp;
}

pub record IsJson (x : Extern) (j : Json x) : Type 0 where
  pub offer : IsCodec j.offer
  pub unmarshal_agreement :
      (a : Agreement x) (s : String)
      → j.agreement.marshal a ≡ some s
      → j.agreement.unmarshal s ≡ some (as_stored x j a)
  pub requester_info : IsCodec j.requester_info
  pub trace_info : IsCodec j.trace_info
  pub publish_info : IsCodec j.publish_info
