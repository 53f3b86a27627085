-- ===== src/Shared/Messages.antt =====
-- dsp/shared/contract_types.go and common_types.go: the messages of a contract negotiation.
use run_dsp.Prelude.{ℕ, String, List}
use run_dsp.Extern.{Extern}
use run_dsp.Jsonld.{Context}
use run_dsp.Odrl.{MessageOffer, Agreement}

pub record Multilanguage : Type 0 where
  pub value : String
  pub language : String

pub record TraceInfo : Type 0 where
  pub trace_id : String
  pub span_id : String
  pub trace_flags : ℕ

pub record ContractRequestMessage (x : Extern) : Type 0 where
  pub context : Context
  pub type : String
  pub provider_pid : String
  pub consumer_pid : String
  pub offer : MessageOffer x
  pub callback_address : String

pub record ContractOfferMessage (x : Extern) : Type 0 where
  pub context : Context
  pub type : String
  pub provider_pid : String
  pub consumer_pid : String
  pub offer : MessageOffer x
  pub callback_address : String

pub record ContractAgreementMessage (x : Extern) : Type 0 where
  pub context : Context
  pub type : String
  pub provider_pid : String
  pub consumer_pid : String
  pub agreement : Agreement x
  pub callback_address : String

pub record ContractAgreementVerificationMessage : Type 0 where
  pub context : Context
  pub type : String
  pub provider_pid : String
  pub consumer_pid : String

pub record ContractNegotiationEventMessage : Type 0 where
  pub context : Context
  pub type : String
  pub provider_pid : String
  pub consumer_pid : String
  pub event_type : String

pub record ContractNegotiationTerminationMessage : Type 0 where
  pub context : Context
  pub type : String
  pub provider_pid : String
  pub consumer_pid : String
  pub code : String
  pub reason : List Multilanguage

pub record ContractNegotiation : Type 0 where
  pub context : Context
  pub type : String
  pub provider_pid : String
  pub consumer_pid : String
  pub state : String

-- The dynamic type of a message that a state machine receives; `other` is any other type.
pub data ContractMessage (x : Extern) : Type 0 where
  request : ContractRequestMessage x → ContractMessage x
  offer : ContractOfferMessage x → ContractMessage x
  agreement : ContractAgreementMessage x → ContractMessage x
  verification : ContractAgreementVerificationMessage → ContractMessage x
  event : ContractNegotiationEventMessage → ContractMessage x
  termination : ContractNegotiationTerminationMessage → ContractMessage x
  other : ContractMessage x
