-- ===== src/StateMachine/PublishInfo.antt =====
-- dsp/statemachine: between a provider's publishing information and the data address of a message
-- (transfer_request_transitions.go and transfer_messages.go).
use text.Mathlib.Text.{starts_with}
use run_dsp.Prelude.{
  String, ◌≡◌, refl, Option, none, some, List, [], ◌∷◌, str_eq, get_or, arith, if◌then◌else◌,
}
use run_dsp.Exec.{Outcome, ok, err, panicked}
use run_dsp.Shared.TransferMessages.{EndpointProperty, DataAddress}
use run_dsp.Transfer.Request.{PublishInfo, AuthenticationType, unspecified, basic, bearer, other}

pub data AddressError : Type 0 where
  invalid_endpoint_property : AddressError
  unsupported_authentication_type : String → AddressError

-- A Go map from texts to texts; the entry that was written last stands first.
abbrev StringMap : Type 0
StringMap = List (String × String)

unfoldable pub find : String → StringMap → Option String
find k [] = none
find k ((j, v) ∷ m) = if str_eq j k then some v else find k m

-- `m[k]`, which is "" for a missing key.
abbrev at_key : StringMap → String → String
at_key m k = get_or "" (find k m)

-- The loop of `makeEndpointPropertyMap`, over the map made so far.
make_map : List EndpointProperty → StringMap → Option StringMap
make_map [] m = some m
make_map (e ∷ es) m =
    let rest = make_map es ((e.name, e.value) ∷ m) in
    if str_eq e.type "dspace:EndpointProperty" then rest else none

unfoldable pub make_endpoint_property_map : List EndpointProperty → Option StringMap
unfolding make_map
make_endpoint_property_map p = make_map p []

abbrev plain_info : String → PublishInfo
plain_info url = record {
  url = url;
  authentication_type = unspecified;
  username = "";
  password = "";
}

-- The `switch` on the authentication type that the map holds, if any.
unfoldable pub authenticate : String → StringMap → Option String → Outcome AddressError PublishInfo
unfolding find
authenticate url m none = ok (plain_info url)
authenticate url m (some auth_type) =
    if str_eq auth_type "bearer"
    then ok (record (plain_info url) {
      authentication_type = bearer;
      password = at_key m "authorization";
    })
    else if str_eq auth_type "basic"
    then ok (record (plain_info url) {
      authentication_type = basic;
      username = at_key m "username";
      password = at_key m "password";
    })
    else err (unsupported_authentication_type auth_type)

unfoldable pub publish_info_from : String → Option StringMap → Outcome AddressError PublishInfo
unfolding authenticate
publish_info_from url none = err invalid_endpoint_property
publish_info_from url (some m) = authenticate url m (find "authType" m)

-- `DataAddressToPublishInfo`, which dereferences its argument: nil panics.
unfoldable pub data_address_to_publish_info : Option DataAddress → Outcome AddressError PublishInfo
unfolding publish_info_from make_endpoint_property_map
data_address_to_publish_info none = panicked
data_address_to_publish_info (some d) =
    publish_info_from d.endpoint (make_endpoint_property_map d.endpoint_properties)

abbrev property : String → String → EndpointProperty
property name value = record { type = "dspace:EndpointProperty"; name = name; value = value }

-- The `switch` on the authentication type; `none` is its panic.
endpoint_properties : PublishInfo → AuthenticationType → Option (List EndpointProperty)
endpoint_properties pi basic = some (
    property "username" pi.username
    ∷ property "password" pi.password
    ∷ property "authType" "basic"
    ∷ [])
endpoint_properties pi bearer =
    some (property "authorization" pi.password ∷ property "authType" "bearer" ∷ [])
endpoint_properties pi unspecified = some []
endpoint_properties pi (other _) = none

-- The later of the two tests wins in the source; no text has both prefixes.
unfoldable pub endpoint_type : String → String
endpoint_type url =
    if starts_with url "http://"
    then "https://w3id.org/idsa/v4.1/HTTP"
    else if starts_with url "https://"
    then "https://w3id.org/idsa/v4.1/HTTPS"
    else ""

address_with : PublishInfo → Option (List EndpointProperty) → Outcome AddressError DataAddress
unfolding endpoint_type
address_with pi none = panicked
address_with pi (some properties) = ok (record {
  type = "dspace:DataAddress";
  endpoint_type = endpoint_type pi.url;
  endpoint = pi.url;
  endpoint_properties = properties;
})

-- `publishInfoToDataAddress`, which dereferences its argument.
unfoldable pub publish_info_to_data_address : Option PublishInfo → Outcome AddressError DataAddress
unfolding address_with endpoint_properties
publish_info_to_data_address none = panicked
publish_info_to_data_address (some pi) =
    address_with pi (endpoint_properties pi pi.authentication_type)

-- What a data address can carry of publishing information.
abbrev pub IsCarried : PublishInfo → AuthenticationType → Type 0
IsCarried pi unspecified = (pi.username ≡ "") × (pi.password ≡ "")
IsCarried pi basic = Unit
IsCarried pi bearer = pi.username ≡ ""
IsCarried pi (other _) = ⊥

carried :
    (pi : PublishInfo) (t : AuthenticationType)
    → pi.authentication_type ≡ t
    → IsCarried pi t
    → {d : DataAddress} → address_with pi (endpoint_properties pi t) ≡ ok d
    → data_address_to_publish_info (some d) ≡ ok pi
unfolding address_with endpoint_properties data_address_to_publish_info
carried pi unspecified e h {d} a = ground arith
carried pi basic e h {d} a = ground arith
carried pi bearer e h {d} a = ground arith
carried pi (other n) e h a = absurd h

-- Publishing information that survives a message: a data address made from it is read back as it was,
-- for basic authentication, for a bearer token with no user name, and without any credentials.
pub publish_info_round_trip :
    (pi : PublishInfo) (d : DataAddress)
    → IsCarried pi pi.authentication_type
    → publish_info_to_data_address (some pi) ≡ ok d
    → data_address_to_publish_info (some d) ≡ ok pi
unfolding publish_info_to_data_address
publish_info_round_trip pi d h e = carried pi pi.authentication_type refl h e
