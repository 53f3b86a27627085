-- ===== src/Odrl.antt =====
-- odrl/types.go: the parts of offers and agreements. An embedded struct is a field whose names are
-- opened; a field of Go type `any` and a time are values of the parameter `x`.
pub mod Validators
use run_dsp.Prelude.{String, List, []}
use run_dsp.Extern.{Extern}

pub record AbstractPolicyRule : Type 0 where
  pub assigner : String
  pub assignee : String

pub record Reference : Type 0 where
  pub id : String

pub record Constraint : Type 0 where
  pub right_operand : String
  pub right_operand_reference : Reference
  pub left_operand : String
  pub operator : String

pub record Duty : Type 0 where
  pub rule : AbstractPolicyRule
  pub id : String
  pub action : String
  pub constraint : List Constraint

pub record Permission : Type 0 where
  pub rule : AbstractPolicyRule
  pub action : String
  pub constraint : List Constraint
  pub duty : Duty

pub record PolicyClass (x : Extern) : Type 0 where
  pub rule : AbstractPolicyRule
  pub id : String
  pub provider_id : String
  pub profile : List Reference
  pub permission : List Permission
  pub obligation : List Duty
  pub prohibition : List x.Any

pub record MessageOffer (x : Extern) : Type 0 where
  pub policy : PolicyClass x
  pub type : String
  pub target : String

pub record Offer (x : Extern) : Type 0 where
  pub message_offer : MessageOffer x

pub record Agreement (x : Extern) : Type 0 where
  pub policy : PolicyClass x
  pub type : String
  pub id : String
  pub target : String
  pub timestamp : x.Time

-- `odrl.PolicyClass{}`
abbrev pub no_policy : (x : Extern) → PolicyClass x
no_policy x = record {
  rule = record { assigner = ""; assignee = "" };
  id = "";
  provider_id = "";
  profile = [];
  permission = [];
  obligation = [];
  prohibition = [];
}
