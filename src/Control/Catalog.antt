-- ===== src/Control/Catalog.antt =====
-- dsp/control/control.go: what the service makes of a provider's catalogue.
use Prim.Native.String.{slice, len}
use text.Mathlib.Text.{starts_with}
use run_dsp.Prelude.{ℤ, pos, String, Option, none, some, List, [], ◌∷◌, map, get_or, if◌then◌else◌}
use run_dsp.Exec.{Outcome, ok, err, panicked}
use run_dsp.Extern.{Extern}
use run_dsp.Jsonld.{get_dsp_context}
use run_dsp.Shared.Messages.{Multilanguage}
use run_dsp.Shared.Ids.{id_to_urn}
use run_dsp.Shared.Catalog.{
  CatalogRequestMessage, DatasetRequestMessage, Checksum, Distribution, Dataset,
  CatalogAcknowledgement, RpcText, RpcDataset, Clock,
}
use run_dsp.Control.Code.{Code}
use run_dsp.Control.Provider.{Requester, get_provider_url, encode_request_decode}

-- `strings.TrimPrefix`
unfoldable pub trim_prefix : String → String → String
trim_prefix s p = if starts_with s p then slice s (len p) (len s) else s

abbrev pub rpc_text_of : Multilanguage → RpcText
rpc_text_of v = record { value = v.value; language = v.language }

-- The variables that the first distribution sets.
pub record FromDistribution : Type 0 where
  pub access : String
  pub media_type : String
  pub description : List RpcText
  pub size : ℤ
  pub checksum : Option Checksum

-- `validate` and JSON on the messages of the catalogue: `none` is an error.
pub record CatalogCodec (x : Extern) : Type 0 where
  pub marshal_catalog_request : CatalogRequestMessage x → Option String
  pub marshal_dataset_request : DatasetRequestMessage → Option String
  pub unmarshal_catalogue : String → Option (CatalogAcknowledgement x)
  pub unmarshal_dataset : String → Option (Dataset x)

module _ (x : Extern) (k : Clock x) where
  unfoldable pub from_distribution : List (Distribution x) → FromDistribution
  from_distribution [] = record {
    access = "";
    media_type = "";
    description = [];
    size = pos 0;
    checksum = none;
  }
  from_distribution (d ∷ _) = record {
    access = d.format;
    media_type = d.media_type;
    description = map rpc_text_of d.description;
    size = d.byte_size;
    checksum = d.checksum;
  }

  -- `time.Parse`, with time.Unix(0, 0) for an error.
  unfoldable pub time_of : String → x.Time
  time_of s = get_or k.epoch (k.parse_rfc3339 s)

  -- The fields of dsrpc.Dataset that are not set are zero.
  unfoldable pub process_dataset : Dataset x → RpcDataset x
  unfolding from_distribution time_of trim_prefix
  process_dataset dsp =
      let d = from_distribution dsp.distribution in
      record {
        id = trim_prefix dsp.resource.id "urn:uuid:%s";
        title = dsp.resource.title;
        access_methods = d.access;
        description = d.description;
        keywords = dsp.resource.keyword;
        creator = some dsp.resource.creator;
        issued = some (time_of dsp.resource.issued);
        modified = some (time_of dsp.resource.modified);
        metadata = [];
        media_type = d.media_type;
        byte_size = d.size;
        checksum = d.checksum;
        license = "";
        access_rights = "";
        rights = "";
        compress_format = "";
        package_format = "";
      }

  unfoldable pub process_catalogue : List (Dataset x) → List (RpcDataset x)
  unfolding process_dataset
  process_catalogue [] = []
  process_catalogue (d ∷ ds) = process_dataset d ∷ process_catalogue ds

  module _ (r : Requester x) (c : CatalogCodec x) where
    unfoldable pub catalogue_answer :
        Outcome Code (CatalogAcknowledgement x) → Outcome Code (List (RpcDataset x))
    unfolding process_catalogue
    catalogue_answer (ok resp) = ok (process_catalogue resp.datasets)
    catalogue_answer (err e) = err e
    catalogue_answer panicked = panicked

    unfoldable pub catalogue_at : Outcome Code x.Url → Outcome Code (List (RpcDataset x))
    unfolding catalogue_answer encode_request_decode
    catalogue_at (ok u) = catalogue_answer (
        encode_request_decode x r "POST" (x.join_path u ("catalog" ∷ ("request" ∷ [])))
          (c.marshal_catalog_request (record {
            context = get_dsp_context;
            type = "dspace:CatalogRequestMessage";
            filter = [];
          }))
          c.unmarshal_catalogue)
    catalogue_at (err e) = err e
    catalogue_at panicked = panicked

    -- `GetProviderCatalogue`
    unfoldable pub get_provider_catalogue : String → Outcome Code (List (RpcDataset x))
    unfolding catalogue_at get_provider_url
    get_provider_catalogue provider_uri = catalogue_at (get_provider_url x r provider_uri)

    unfoldable pub dataset_answer :
        String → Outcome Code (Dataset x) → Outcome Code (String × RpcDataset x)
    unfolding process_dataset
    dataset_answer provider_url (ok resp) = ok (provider_url, process_dataset resp)
    dataset_answer provider_url (err e) = err e
    dataset_answer provider_url panicked = panicked

    unfoldable pub dataset_at :
        (provider_url dataset_id : String)
        → Outcome Code x.Url
        → Outcome Code (String × RpcDataset x)
    unfolding dataset_answer encode_request_decode id_to_urn
    dataset_at provider_url dataset_id (ok u) = dataset_answer provider_url (
        encode_request_decode x r "GET"
          (x.join_path u ("catalog" ∷ ("datasets" ∷ (dataset_id ∷ []))))
          (c.marshal_dataset_request (record {
            context = get_dsp_context;
            type = "dspace:DatasetRequestMessage";
            dataset = id_to_urn x dataset_id;
          }))
          c.unmarshal_dataset)
    dataset_at provider_url dataset_id (err e) = err e
    dataset_at provider_url dataset_id panicked = panicked

    -- `GetProviderDataset`
    unfoldable pub get_provider_dataset :
        (provider_url dataset_id : String) → Outcome Code (String × RpcDataset x)
    unfolding dataset_at get_provider_url
    get_provider_dataset provider_url dataset_id =
        dataset_at provider_url dataset_id (get_provider_url x r provider_url)
