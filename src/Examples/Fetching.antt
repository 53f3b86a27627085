-- ===== src/Examples/Fetching.antt =====
-- A catalogue of one dataset, asked for and answered.
use run_dsp.Prelude.{◌≡◌, refl, true, none, some, [], ◌∷◌, map, pos, str_eq, if◌then◌else◌}
use run_dsp.Exec.{ok, err}
use run_dsp.Shared.Ids.{id_to_urn}
use run_dsp.Oid.{parse}
use run_dsp.Shared.Catalog.{RpcDataset, Clock}
use run_dsp.Handlers.Http.{
  version_response, wrap_handler_with_error, unauthenticated, grpc_error_handler,
}
use run_dsp.Handlers.Catalog.{
  CatalogProvider, CatalogSetup, no_dataset, catalogue_of, catalog_request_handler,
}
use run_dsp.Control.Provider.{Requester}
use run_dsp.Control.Catalog.{CatalogCodec, get_provider_catalogue}
use run_dsp.Control.Fetching.{IsClock, listed, Reaches, reply_to, get_provider_catalogue-listed}
use run_dsp.Examples.World.{world, read_unary}

abbrev clock : Clock world
clock = record {
  format_rfc3339 = λ t. "2024-01-01T00:00:00Z";
  parse_rfc3339 = λ s. some tt;
  epoch = tt;
}

clock-IsClock : IsClock world clock
clock-IsClock = record { seconds = λ t. t; parse-format = λ t. refl }

abbrev setup : CatalogSetup
setup = record { dataservice_id = ""; dataservice_endpoint = "" }

abbrev dataset : RpcDataset world
dataset = record (no_dataset world) {
  id = "file-1";
  title = "A file";
  access_methods = "http";
  description = record { value = "A file of numbers"; language = "en" } ∷ [];
  keywords = "numbers" ∷ [];
  media_type = "text/csv";
  byte_size = pos 1024;
  checksum = some (record { algorithm = "sha256"; value = "00" });
  license = "CC0";
}

-- It is left out for a requester without a name.
abbrev one_file : CatalogProvider world
one_file = record {
  get_catalogue = λ requester.
      if str_eq requester ""
      then err (record { code = unauthenticated; text = "no name" })
      else ok (dataset ∷ []);
  get_dataset = λ id requester. ok (if str_eq id "file-1" then some dataset else none);
}

abbrev by_method : Requester world
by_method = record {
  send_http_request =
      λ method u body. some (if str_eq method "GET" then "versions" else "catalogue");
  unmarshal_versions = λ s. some version_response.protocol_versions;
}

abbrev codec : CatalogCodec world
codec = record {
  marshal_catalog_request = λ m. some "request";
  marshal_dataset_request = λ m. some m.dataset;
  unmarshal_catalogue = λ s.
      if str_eq s "catalogue" then some (catalogue_of world clock setup (dataset ∷ [])) else none;
  unmarshal_dataset = λ s. none;
}

by_method-Reaches :
    Reaches world clock clock-IsClock by_method codec "peer" (
      reply_to world clock clock-IsClock by_method codec setup one_file
        (λ a. true)
        (λ e. true)
        "us")
unfolding wrap_handler_with_error catalog_request_handler
by_method-Reaches = record {
  version = "versions";
  version_sent = refl;
  version_read = refl;
  request = "request";
  request_made = refl;
  answer = "catalogue";
  answer_sent = refl;
  answer_read = refl;
}

get_provider_catalogue-listed_example :
    get_provider_catalogue world clock by_method codec "/peer"
    ≡ ok (map (listed world clock clock-IsClock) (dataset ∷ []))
unfolding id_to_urn parse read_unary
get_provider_catalogue-listed_example =
    get_provider_catalogue-listed world clock clock-IsClock by_method codec setup one_file
      (λ a. true) (λ e. true) "us" "/peer" "peer" (dataset ∷ []) refl by_method-Reaches refl refl
      (refl, tt)

forbidden : (grpc_error_handler (record { code = unauthenticated; text = "" })).status ≡ 403
unfolding grpc_error_handler
forbidden = refl
