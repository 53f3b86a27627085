-- ===== src/Handlers/Http.antt =====
-- dsp/error_wrapper.go and dsp/common_handlers.go: what a handler's result becomes on the wire. A body
-- is the value that is encoded.
use Prim.Native.String.{◌++◌}
use run_dsp.Prelude.{ℕ, String, Bool, true, false, Option, none, some, List, [], ◌∷◌}
use run_dsp.Exec.{Outcome, ok, err, panicked}
use run_dsp.Jsonld.{get_dsp_context}
use run_dsp.Shared.Messages.{Multilanguage}
use run_dsp.Shared.Catalog.{VersionResponse, DspError}
use run_dsp.Control.Provider.{dsp_version}

-- A response with its status; `none` is an empty body.
pub record Response (A : Type 0) : Type 0 where
  pub status : ℕ
  pub body : Option A

-- `EncodeValid`: the status is written before the value is validated. `valid` is the validation and the
-- encoding of the value.
unfoldable pub body_if : {A : Type 0} → Bool → A → Option A
body_if true a = some a
body_if false a = none

unfoldable pub encode_valid : {A : Type 0} → (valid : A → Bool) → (status : ℕ) → A → Response A
unfolding body_if
encode_valid valid status a = record { status = status; body = body_if (valid a) a }

-- `HTTPReturnError`
pub record HttpReturnError : Type 0 where
  pub status_code : ℕ
  pub error_type : String
  pub dsp_code : String
  pub reason : List Multilanguage
  pub description : List Multilanguage
  pub provider_pid : String
  pub consumer_pid : String

-- An error of a handler, for `errors.As`: one for HTTP, or any other.
pub data HandlerError : Type 0 where
  http_error : HttpReturnError → HandlerError
  plain_error : HandlerError

-- `CatalogError` with its methods.
pub record CatalogError : Type 0 where
  pub status : ℕ
  pub dsp_code : String
  pub reason : String
  pub err : String

unfoldable pub catalog_error :
    (err : String) → (status : ℕ) → (dsp_code reason : String) → CatalogError
catalog_error e s c r = record { status = s; dsp_code = c; reason = r; err = e }

unfoldable pub catalog_http_error : CatalogError → HttpReturnError
catalog_http_error ce = record {
  status_code = ce.status;
  error_type = "dspace:CatalogError";
  dsp_code = ce.dsp_code;
  reason = record { value = ce.reason; language = "en" } ∷ [];
  description = [];
  provider_pid = "";
  consumer_pid = "";
}

-- `status.Code` of an error of a gRPC call, as far as it is told apart, with the error's text.
pub data GrpcCode : Type 0 where
  unauthenticated permission_denied invalid_argument not_found other_code : GrpcCode

pub record GrpcError : Type 0 where
  pub code : GrpcCode
  pub text : String

grpc_code_error : GrpcCode → String → CatalogError
unfolding catalog_error
grpc_code_error unauthenticated e = catalog_error e 403 "403" "Not authenticated"
grpc_code_error permission_denied e = catalog_error e 401 "401" "Permission denied"
grpc_code_error invalid_argument e = catalog_error e 400 "400" "Invalid argument"
grpc_code_error not_found e = catalog_error e 404 "404" "Not found"
grpc_code_error other_code e = catalog_error e 500 "500" "Internal server error"

unfoldable pub grpc_error_handler : GrpcError → CatalogError
unfolding grpc_code_error
grpc_error_handler e = grpc_code_error e.code e.text

-- What the client gets: the handler's response, or an error in its place.
pub data Reply (A : Type 0) : Type 0 where
  answered : Response A → Reply A
  refused : Response DspError → Reply A
  died : Reply A

unfoldable pub unknown_error : DspError
unknown_error = record {
  context = get_dsp_context;
  type = "dspace:UnknownError";
  provider_pid = "";
  consumer_pid = "";
  code = "INTERNAL";
  reason = record { value = "Internal Server Errror"; language = "en" } ∷ [];
  description = [];
}

unfoldable pub dsp_error : HttpReturnError → DspError
dsp_error e = record {
  context = get_dsp_context;
  type = e.error_type;
  provider_pid = e.provider_pid;
  consumer_pid = e.consumer_pid;
  code = e.dsp_code;
  reason = e.reason;
  description = e.description;
}

module _ (valid_error : DspError → Bool) where
  unfoldable pub handle_http_error : HttpReturnError → Response DspError
  unfolding encode_valid dsp_error
  handle_http_error e = encode_valid valid_error e.status_code (dsp_error e)

  -- `WrapHandlerWithError`
  unfoldable pub wrap_handler_with_error :
      {A : Type 0} → Outcome HandlerError (Response A) → Reply A
  unfolding handle_http_error encode_valid unknown_error
  wrap_handler_with_error (ok r) = answered r
  wrap_handler_with_error (err (http_error e)) = refused (handle_http_error e)
  wrap_handler_with_error (err plain_error) = refused (encode_valid valid_error 500 unknown_error)
  wrap_handler_with_error panicked = died

abbrev pub api_path : String
api_path = "/run-dsp/v2024-1"

-- `dspaceVersionHandler`; `none` is an error of the validation or of the marshalling.
abbrev pub version_response : VersionResponse
version_response = record {
  context = get_dsp_context;
  protocol_versions = record { version = dsp_version; path = api_path } ∷ [];
}

unfoldable pub written : Option String → Outcome HandlerError (Response String)
written none = err plain_error
written (some text) = ok (record { status = 200; body = some text })

unfoldable pub dspace_version_handler :
    (VersionResponse → Option String) → Outcome HandlerError (Response String)
unfolding written
dspace_version_handler marshal = written (marshal version_response)

-- `routeNotImplemented`
pub record ErrorResponse : Type 0 where
  pub error : String

unfoldable pub route_not_implemented : (method path : String) → Response ErrorResponse
route_not_implemented method path = record {
  status = 501;
  body = some (record { error = method ++ (" " ++ (path ++ " has not been implemented")) });
}
