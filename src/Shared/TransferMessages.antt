-- ===== src/Shared/TransferMessages.antt =====
-- dsp/shared/transfer_types.go: the messages of a transfer process. `*DataAddress` is an `Option`, and
-- the reasons of a suspension or termination are untyped maps, values of the parameter `x`.
use run_dsp.Prelude.{String, Option, List}
use run_dsp.Extern.{Extern}
use run_dsp.Jsonld.{Context}

pub record EndpointProperty : Type 0 where
  pub type : String
  pub name : String
  pub value : String

pub record DataAddress : Type 0 where
  pub type : String
  pub endpoint_type : String
  pub endpoint : String
  pub endpoint_properties : List EndpointProperty

pub record TransferRequestMessage : Type 0 where
  pub context : Context
  pub type : String
  pub agreement_id : String
  pub format : String
  pub data_address : Option DataAddress
  pub callback_address : String
  pub consumer_pid : String

pub record TransferStartMessage : Type 0 where
  pub context : Context
  pub type : String
  pub provider_pid : String
  pub consumer_pid : String
  pub data_address : Option DataAddress

pub record TransferSuspensionMessage (x : Extern) : Type 0 where
  pub context : Context
  pub type : String
  pub provider_pid : String
  pub consumer_pid : String
  pub code : String
  pub reason : List x.Any

pub record TransferCompletionMessage : Type 0 where
  pub context : Context
  pub type : String
  pub provider_pid : String
  pub consumer_pid : String

pub record TransferTerminationMessage (x : Extern) : Type 0 where
  pub context : Context
  pub type : String
  pub provider_pid : String
  pub consumer_pid : String
  pub code : String
  pub reason : List x.Any

pub record TransferProcess : Type 0 where
  pub context : Context
  pub type : String
  pub provider_pid : String
  pub consumer_pid : String
  pub state : String

-- The dynamic type of a message that a state machine receives; `other` is any other type.
pub data TransferMessage (x : Extern) : Type 0 where
  request : TransferRequestMessage → TransferMessage x
  start : TransferStartMessage → TransferMessage x
  completion : TransferCompletionMessage → TransferMessage x
  termination : TransferTerminationMessage x → TransferMessage x
  suspension : TransferSuspensionMessage x → TransferMessage x
  other : TransferMessage x
