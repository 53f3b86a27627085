-- ===== src/Shared/Catalog.antt =====
-- dsp/shared/catalog_types.go and the types of the version and error responses of common_types.go; an
-- embedded struct is a field whose names are opened.
use run_dsp.Prelude.{ℤ, String, Option, List}
use run_dsp.Extern.{Extern}
use run_dsp.Jsonld.{Context}
use run_dsp.Odrl.{Offer}
use run_dsp.Shared.Messages.{Multilanguage}

pub record CatalogRequestMessage (x : Extern) : Type 0 where
  pub context : Context
  pub type : String
  pub filter : List x.Any

pub record DatasetRequestMessage : Type 0 where
  pub context : Context
  pub type : String
  pub dataset : String

pub record Reference : Type 0 where
  pub id : String

pub record Resource : Type 0 where
  pub id : String
  pub type : String
  pub keyword : List String
  pub theme : List Reference
  pub conforms_to : String
  pub creator : String
  pub description : List Multilanguage
  pub identifier : String
  pub issued : String
  pub modified : String
  pub title : String

pub record Checksum : Type 0 where
  pub algorithm : String
  pub value : String

-- The elements of `ServesDataset` are datasets again; no code sets or reads them, and they stay opaque.
pub record DataService (x : Extern) : Type 0 where
  pub resource : Resource
  pub endpoint_description : String
  pub endpoint_url : String
  pub serves_dataset : List x.Any

pub record Distribution (x : Extern) : Type 0 where
  pub type : String
  pub format : String
  pub title : String
  pub description : List Multilanguage
  pub issued : String
  pub modified : String
  pub has_policy : List (Offer x)
  pub access_service : List (DataService x)
  pub license : String
  pub access_rights : String
  pub rights : String
  pub byte_size : ℤ
  pub media_type : String
  pub compress_format : String
  pub package_format : String
  pub checksum : Option Checksum

pub record Dataset (x : Extern) : Type 0 where
  pub resource : Resource
  pub has_policy : List (Offer x)
  pub distribution : List (Distribution x)

pub record CatalogAcknowledgement (x : Extern) : Type 0 where
  pub context : Context
  pub dataset : Dataset x
  pub datasets : List (Dataset x)
  pub service : List (DataService x)
  pub participant_id : String
  pub homepage : String

pub record ProtocolVersion : Type 0 where
  pub version : String
  pub path : String

pub record VersionResponse : Type 0 where
  pub context : Context
  pub protocol_versions : List ProtocolVersion

-- `DSPError`
pub record DspError : Type 0 where
  pub context : Context
  pub type : String
  pub provider_pid : String
  pub consumer_pid : String
  pub code : String
  pub reason : List Multilanguage
  pub description : List Multilanguage

-- The generated type dsrpc.Dataset, with the fields that the program reads or sets. A getter of a pointer
-- that is nil returns the zero value; the times of the timestamps are read by `AsTime`.
pub record RpcText : Type 0 where
  pub value : String
  pub language : String

pub record RpcDataset (x : Extern) : Type 0 where
  pub id : String
  pub title : String
  pub access_methods : String
  pub description : List RpcText
  pub keywords : List String
  pub creator : Option String
  pub issued : Option x.Time
  pub modified : Option x.Time
  pub metadata : List (String × String)
  pub media_type : String
  pub byte_size : ℤ
  pub checksum : Option Checksum
  pub license : String
  pub access_rights : String
  pub rights : String
  pub compress_format : String
  pub package_format : String

-- What the program uses of the package time: a time as text in the form of RFC 3339, and time.Unix(0, 0).
pub record Clock (x : Extern) : Type 0 where
  pub format_rfc3339 : x.Time → String
  pub parse_rfc3339 : String → Option x.Time
  pub epoch : x.Time
