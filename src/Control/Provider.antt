-- ===== src/Control/Provider.antt =====
-- dsp/control/control.go: what the service asks of a provider.
use run_dsp.Prelude.{String, Option, none, some, List, [], ◌∷◌, str_eq, if◌then◌else◌}
use run_dsp.Exec.{Outcome, ok, err}
use run_dsp.Extern.{Extern}
use run_dsp.Shared.Catalog.{ProtocolVersion}
use run_dsp.Control.Code.{
  Code, invalid_argument, not_found, failed_precondition, unavailable, internal,
}

-- `constants.DSPVersion`
abbrev pub dsp_version : String
dsp_version = "2024-1"

-- The HTTP requester, `none` for an error, and `shared.UnmarshalAndValidate` of a version response.
pub record Requester (x : Extern) : Type 0 where
  pub send_http_request : (method : String) → x.Url → (body : String) → Option String
  pub unmarshal_versions : String → Option (List ProtocolVersion)

-- The first version that we speak.
unfoldable pub find_path : List ProtocolVersion → Option String
find_path [] = none
find_path (v ∷ vs) = if str_eq v.version dsp_version then some v.path else find_path vs

module _ (x : Extern) (r : Requester x) where
  -- From the version response on; `MustParseURL` parses the same text again.
  unfoldable pub choose_version : x.Url → Option (List ProtocolVersion) → Outcome Code x.Url
  unfolding find_path
  choose_version u none = err failed_precondition
  choose_version u (some vs) = elim (find_path vs) [
    | none ↦ err failed_precondition
    | some path ↦ ok (x.join_path u (path ∷ []))
  ]

  -- `getProviderURL`
  unfoldable pub get_provider_url : String → Outcome Code x.Url
  unfolding choose_version
  get_provider_url s = elim (x.parse_url s) [
    | none ↦ err invalid_argument
    | some u ↦
        elim (r.send_http_request "GET" (x.join_path u (".well-known" ∷ "dspace-version" ∷ []))
          "") [ none ↦ err not_found | some body ↦ choose_version u (r.unmarshal_versions body) ]
  ]

  -- `encodeRequestDecode`, for the marshalled body, which may have failed, and a way to read the answer.
  unfoldable pub encode_request_decode :
      {R : Type 0}
      → (method : String) → x.Url
      → Option String
      → (String → Option R)
      → Outcome Code R
  encode_request_decode method u none decode = err internal
  encode_request_decode method u (some body) decode = elim (r.send_http_request method u body) [
    | none ↦ err unavailable
    | some answer ↦ elim (decode answer) [ none ↦ err failed_precondition | some v ↦ ok v ]
  ]
