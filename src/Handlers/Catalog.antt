-- ===== src/Handlers/Catalog.antt =====
-- dsp/catalog_handlers.go: a dataset of the provider as a dataset of the catalogue, and the two handlers
-- that serve them.
use run_dsp.Prelude.{
  String, Bool, Option, none, some, List, [], ◌∷◌, map, pos, str_eq, if◌then◌else◌, get_or,
}
use run_dsp.Exec.{Outcome, ok, err, panicked}
use run_dsp.Extern.{Extern}
use run_dsp.Jsonld.{get_dsp_context}
use run_dsp.Shared.Messages.{Multilanguage}
use run_dsp.Shared.Ids.{id_to_urn}
use run_dsp.Shared.Catalog.{
  CatalogRequestMessage, DatasetRequestMessage, Resource, DataService, Dataset,
  CatalogAcknowledgement, RpcText, RpcDataset, Clock,
}
use run_dsp.Handlers.Http.{
  Response, HandlerError, http_error, encode_valid, catalog_error, catalog_http_error, GrpcError,
  grpc_error_handler,
}

-- `shared.Resource` with its ID and type only.
abbrev pub bare_resource : (id type : String) → Resource
bare_resource i t = record {
  id = i;
  type = t;
  keyword = [];
  theme = [];
  conforms_to = "";
  creator = "";
  description = [];
  identifier = "";
  issued = "";
  modified = "";
  title = "";
}

abbrev pub or_default : String → String → String
or_default d s = if str_eq s "" then d else s

abbrev pub multilanguage_of : RpcText → Multilanguage
multilanguage_of t = record { value = t.value; language = t.language }

-- dsrpc.ProviderServiceClient, as far as the handlers call it. A response may have no dataset.
pub record CatalogProvider (x : Extern) : Type 0 where
  pub get_catalogue : x.RequesterInfo → Outcome GrpcError (List (RpcDataset x))
  pub get_dataset : String → x.RequesterInfo → Outcome GrpcError (Option (RpcDataset x))

-- The fields of dspHandlers that the catalogue needs.
pub record CatalogSetup : Type 0 where
  pub dataservice_id : String
  pub dataservice_endpoint : String

-- The zero dsrpc.Dataset, which the getters of a nil one read.
abbrev pub no_dataset : (x : Extern) → RpcDataset x
no_dataset x = record {
  id = "";
  title = "";
  access_methods = "";
  description = [];
  keywords = [];
  creator = none;
  issued = none;
  modified = none;
  metadata = [];
  media_type = "";
  byte_size = pos 0;
  checksum = none;
  license = "";
  access_rights = "";
  rights = "";
  compress_format = "";
  package_format = "";
}

unfoldable pub grpc_failed : {A : Type 0} → GrpcError → Outcome HandlerError A
unfolding grpc_error_handler catalog_http_error
grpc_failed e = err (http_error (catalog_http_error (grpc_error_handler e)))

abbrev pub bad_request : {A : Type 0} → (err reason : String) → Outcome HandlerError A
unfolding catalog_http_error catalog_error
bad_request e reason = err (http_error (catalog_http_error (catalog_error e 400 "400" reason)))

module _ (x : Extern) (k : Clock x) where
  -- `GetIssued().AsTime().Format(time.RFC3339)`
  unfoldable pub time_text : Option x.Time → String
  time_text t = k.format_rfc3339 (get_or k.epoch t)

  -- The access service is set, the descriptions are appended, and the checksum is set again.
  unfoldable pub process_provider_dataset : RpcDataset x → DataService x → Dataset x
  unfolding time_text id_to_urn
  process_provider_dataset pds service = record {
    resource = record {
      id = id_to_urn x pds.id;
      type = "dcat:Dataset";
      keyword = pds.keywords;
      theme = [];
      conforms_to = "";
      creator = get_or "" pds.creator;
      description = [];
      identifier = "";
      issued = time_text pds.issued;
      modified = time_text pds.modified;
      title = pds.title;
    };
    has_policy = [];
    distribution =
        record {
          type = "dcat:Distribution";
          format = "";
          title = "";
          description = map multilanguage_of pds.description;
          issued = "";
          modified = "";
          has_policy = [];
          access_service = service ∷ [];
          license = pds.license;
          access_rights = pds.access_rights;
          rights = pds.rights;
          byte_size = pds.byte_size;
          media_type = pds.media_type;
          compress_format = pds.compress_format;
          package_format = pds.package_format;
          checksum = pds.checksum;
        }
        ∷ [];
  }

  unfoldable pub process_provider_catalogue : List (RpcDataset x) → DataService x → List (Dataset x)
  unfolding process_provider_dataset
  process_provider_catalogue [] service = []
  process_provider_catalogue (d ∷ ds) service =
      process_provider_dataset d service ∷ process_provider_catalogue ds service

  module _ (c : CatalogSetup) where
    -- `getDataService`
    unfoldable pub get_data_service : DataService x
    get_data_service = record {
      resource =
          bare_resource
            (or_default "urn:uuid:09a761b1-8ab5-4d53-a57a-df52080298b4" c.dataservice_id)
            "dcat:DataService";
      endpoint_description = "";
      endpoint_url = or_default "http://unknown.example.org" c.dataservice_endpoint;
      serves_dataset = [];
    }

    -- The catalogue with its datasets.
    unfoldable pub catalogue_of : List (RpcDataset x) → CatalogAcknowledgement x
    unfolding process_provider_catalogue get_data_service
    catalogue_of ds = record {
      context = get_dsp_context;
      dataset = record {
        resource =
            record (bare_resource "urn:uuid:3afeadd8-ed2d-569e-d634-8394a8836d57" "dcat:Catalog") {
              keyword = "dataspace" ∷ ("run-dsp" ∷ []);
            };
        has_policy = [];
        distribution = [];
      };
      datasets = process_provider_catalogue ds get_data_service;
      service = get_data_service ∷ [];
      participant_id = "";
      homepage = "";
    }

    module _ (p : CatalogProvider x) where
      -- From the provider's answer on; an error of the encoding is logged.
      unfoldable pub serve_catalogue :
          (CatalogAcknowledgement x → Bool)
          → Outcome GrpcError (List (RpcDataset x))
          → Outcome HandlerError (Response (CatalogAcknowledgement x))
      unfolding grpc_failed catalogue_of encode_valid
      serve_catalogue valid (ok ds) = ok (encode_valid valid 200 (catalogue_of ds))
      serve_catalogue valid (err e) = grpc_failed e
      serve_catalogue valid panicked = panicked

      unfoldable pub catalog_for :
          (CatalogAcknowledgement x → Bool)
          → Option x.RequesterInfo
          → Outcome HandlerError (Response (CatalogAcknowledgement x))
      unfolding serve_catalogue
      catalog_for valid none = panicked
      catalog_for valid (some requester) = serve_catalogue valid (p.get_catalogue requester)

      -- `catalogRequestHandler`, for the decoded message and the requester of the context.
      unfoldable pub catalog_request_handler :
          (CatalogAcknowledgement x → Bool)
          → Option (CatalogRequestMessage x)
          → Option x.RequesterInfo
          → Outcome HandlerError (Response (CatalogAcknowledgement x))
      unfolding catalog_for
      catalog_request_handler valid none requester =
          bad_request "request did not validate" "Invalid request"
      catalog_request_handler valid (some message) requester = catalog_for valid requester

      unfoldable pub serve_dataset :
          (Dataset x → Bool)
          → Outcome GrpcError (Option (RpcDataset x))
          → Outcome HandlerError (Response (Dataset x))
      unfolding grpc_failed process_provider_dataset get_data_service encode_valid
      serve_dataset valid (ok d) = ok (
          encode_valid valid 200
            (process_provider_dataset (get_or (no_dataset x) d) get_data_service))
      serve_dataset valid (err e) = grpc_failed e
      serve_dataset valid panicked = panicked

      unfoldable pub dataset_for :
          (Dataset x → Bool)
          → String
          → Option x.RequesterInfo
          → Outcome HandlerError (Response (Dataset x))
      unfolding serve_dataset
      dataset_for valid id none = panicked
      dataset_for valid id (some requester) = serve_dataset valid (p.get_dataset id requester)

      unfoldable pub dataset_decoded :
          (Dataset x → Bool)
          → String
          → Outcome String DatasetRequestMessage
          → Option x.RequesterInfo
          → Outcome HandlerError (Response (Dataset x))
      unfolding dataset_for
      dataset_decoded valid id (ok message) requester = dataset_for valid id requester
      dataset_decoded valid id (err e) requester = bad_request e "Invalid dataset request"
      dataset_decoded valid id panicked requester = panicked

      -- `datasetRequestHandler`, for the id in the path, the decoded message or the error's text, and the
      -- requester of the context.
      unfoldable pub dataset_request_handler :
          (Dataset x → Bool)
          → String
          → Outcome String DatasetRequestMessage
          → Option x.RequesterInfo
          → Outcome HandlerError (Response (Dataset x))
      unfolding dataset_decoded
      dataset_request_handler valid id message requester =
          if str_eq id ""
          then bad_request "no ID in path" "No ID given in path"
          else dataset_decoded valid id message requester
