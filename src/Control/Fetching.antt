-- ===== src/Control/Fetching.antt =====
-- The catalogue from one participant to another: dsp/catalog_handlers.go answers what
-- dsp/control/control.go asks.
use text.Mathlib.Text.{starts_with}
use run_dsp.Prelude.{
  String, ◌≡◌, refl, ap, ◌∙◌, Bool, true, false, Option, none, some, List, [], ◌∷◌, map, get_or,
}
use run_dsp.Exec.{ok}
use run_dsp.Extern.{Extern}
use run_dsp.Jsonld.{get_dsp_context}
use run_dsp.Shared.Ids.{id_to_urn}
use run_dsp.Shared.Catalog.{
  CatalogRequestMessage, DataService, CatalogAcknowledgement, RpcText, RpcDataset, Clock, DspError,
}
use run_dsp.Handlers.Http.{
  Reply, answered, refused, died, encode_valid, body_if, wrap_handler_with_error, version_response,
  api_path,
}
use run_dsp.Handlers.Catalog.{
  CatalogProvider, CatalogSetup, multilanguage_of, time_text, process_provider_dataset,
  process_provider_catalogue, get_data_service, catalogue_of, serve_catalogue, catalog_for,
  catalog_request_handler,
}
use run_dsp.Control.Provider.{
  Requester, find_path, choose_version, get_provider_url, encode_request_decode,
}
use run_dsp.Control.Catalog.{
  trim_prefix, rpc_text_of, CatalogCodec, from_distribution, time_of, process_dataset,
  process_catalogue, catalogue_answer, catalogue_at, get_provider_catalogue,
}

-- A time in the form of RFC 3339 is read back to the second.
pub record IsClock (x : Extern) (k : Clock x) : Type 0 where
  pub seconds : x.Time → x.Time
  pub parse-format : (t : x.Time) → k.parse_rfc3339 (k.format_rfc3339 t) ≡ some (seconds t)

texts_kept : (ts : List RpcText) → map rpc_text_of (map multilanguage_of ts) ≡ ts
texts_kept [] = refl
texts_kept (t ∷ ts) = ap (λ us. t ∷ us) (texts_kept ts)

module _ (x : Extern) (k : Clock x) (clock : IsClock x k) where
  -- A dataset as another participant lists it.
  abbrev pub whole : Option x.Time → Option x.Time
  whole t = some (clock.seconds (get_or k.epoch t))

  abbrev pub listed : RpcDataset x → RpcDataset x
  listed d = record {
    id = id_to_urn x d.id;
    title = d.title;
    access_methods = "";
    description = d.description;
    keywords = d.keywords;
    creator = some (get_or "" d.creator);
    issued = whole d.issued;
    modified = whole d.modified;
    metadata = [];
    media_type = d.media_type;
    byte_size = d.byte_size;
    checksum = d.checksum;
    license = "";
    access_rights = "";
    rights = "";
    compress_format = "";
    package_format = "";
  }

  -- The identifier's URN is not one with the text that `processDataset` would remove.
  abbrev pub HasPlainUrn : RpcDataset x → Type 0
  HasPlainUrn d = starts_with (id_to_urn x d.id) "urn:uuid:%s" ≡ false

  abbrev pub AllPlainUrns : List (RpcDataset x) → Type 0
  AllPlainUrns [] = Unit
  AllPlainUrns (d ∷ ds) = HasPlainUrn d × AllPlainUrns ds

  time_of-time_text : (t : Option x.Time) → some (time_of x k (time_text x k t)) ≡ whole t
  unfolding time_of time_text
  time_of-time_text t = rw (clock.parse-format (get_or k.epoch t))

  pub process_dataset-process_provider_dataset :
      (d : RpcDataset x) (s : DataService x)
      → HasPlainUrn d
      → process_dataset x k (process_provider_dataset x k d s) ≡ listed d
  unfolding process_dataset process_provider_dataset from_distribution trim_prefix
  process_dataset-process_provider_dataset d s h =
      rw (h, texts_kept d.description, time_of-time_text d.issued, time_of-time_text d.modified)

  process_catalogue-process_provider_catalogue :
      (ds : List (RpcDataset x)) (s : DataService x)
      → AllPlainUrns ds
      → process_catalogue x k (process_provider_catalogue x k ds s) ≡ map listed ds
  unfolding process_catalogue process_provider_catalogue
  process_catalogue-process_provider_catalogue [] s h = refl
  process_catalogue-process_provider_catalogue (d ∷ ds) s (h, hs) = rw (
    process_dataset-process_provider_dataset d s h,
    process_catalogue-process_provider_catalogue ds s hs,
  )

  abbrev pub body_of : {A : Type 0} → Reply A → Option A
  body_of (answered r) = r.body
  body_of (refused r) = none
  body_of died = none

  abbrev pub catalog_request : CatalogRequestMessage x
  catalog_request = record {
    context = get_dsp_context;
    type = "dspace:CatalogRequestMessage";
    filter = [];
  }

  module _ (r : Requester x) (codec : CatalogCodec x) where
    -- At the URL the requester reaches a participant that runs this program: its version response and
    -- its reply to a catalogue request, made for the identity that it takes us for.
    pub record Reaches (u : x.Url) (reply : Reply (CatalogAcknowledgement x)) : Type 0 where
      pub version : String
      pub version_sent :
          r.send_http_request "GET" (x.join_path u (".well-known" ∷ ("dspace-version" ∷ []))) ""
          ≡ some version
      pub version_read : r.unmarshal_versions version ≡ some version_response.protocol_versions
      pub request : String
      pub request_made : codec.marshal_catalog_request catalog_request ≡ some request
      pub answer : String
      pub answer_sent :
          r.send_http_request "POST"
            (x.join_path (x.join_path u (api_path ∷ [])) ("catalog" ∷ ("request" ∷ [])))
            request
          ≡ some answer
      pub answer_read : codec.unmarshal_catalogue answer ≡ body_of reply

    get_provider_url_reached :
        (uri : String) (u : x.Url) (reply : Reply (CatalogAcknowledgement x))
        → x.parse_url uri ≡ some u
        → Reaches u reply
        → get_provider_url x r uri ≡ ok (x.join_path u (api_path ∷ []))
    unfolding get_provider_url choose_version find_path
    get_provider_url_reached uri u reply h w =
        rw (get_provider_url, h, w.version_sent, choose_version, w.version_read)

    catalogue_at_reached :
        (u : x.Url) (reply : Reply (CatalogAcknowledgement x)) (ack : CatalogAcknowledgement x)
        → Reaches u reply
        → body_of reply ≡ some ack
        → catalogue_at x k r codec (ok (x.join_path u (api_path ∷ [])))
          ≡ ok (process_catalogue x k ack.datasets)
    unfolding catalogue_at catalogue_answer encode_request_decode
    catalogue_at_reached u reply ack w h =
        rw (w.request_made, encode_request_decode, w.answer_sent, w.answer_read, h)

    module _ (c : CatalogSetup) (p : CatalogProvider x) where
      -- What the other participant replies.
      abbrev pub reply_to :
          (CatalogAcknowledgement x → Bool)
          → (DspError → Bool)
          → x.RequesterInfo
          → Reply (CatalogAcknowledgement x)
      reply_to valid valid_error requester =
          wrap_handler_with_error valid_error
            (catalog_request_handler x k c p valid (some catalog_request) (some requester))

      body-reply_to :
          (valid : CatalogAcknowledgement x → Bool) (valid_error : DspError → Bool)
          (requester : x.RequesterInfo) (ds : List (RpcDataset x))
          → p.get_catalogue requester ≡ ok ds
          → valid (catalogue_of x k c ds) ≡ true
          → body_of (reply_to valid valid_error requester) ≡ some (catalogue_of x k c ds)
      unfolding wrap_handler_with_error catalog_request_handler catalog_for serve_catalogue
          encode_valid body_if
      body-reply_to valid valid_error requester ds h e = rw (h, e)

      datasets-catalogue_of :
          (ds : List (RpcDataset x))
          → AllPlainUrns ds
          → process_catalogue x k ((catalogue_of x k c ds).datasets) ≡ map listed ds
      unfolding catalogue_of
      datasets-catalogue_of ds =
          process_catalogue-process_provider_catalogue ds (get_data_service x k c)

      -- Where the requester reaches a participant that runs this program, and the catalogue of its
      -- provider's datasets validates, `GetProviderCatalogue` returns each of them with its title,
      -- description, keywords, media type, size and checksum as they are, with its identifier as a URN
      -- and its times to the second, and without its access methods, metadata, license, rights and
      -- formats, if no identifier's URN starts with the text `urn:uuid:%s`.
      pub get_provider_catalogue-listed :
          (valid : CatalogAcknowledgement x → Bool) (valid_error : DspError → Bool)
          (requester : x.RequesterInfo) (uri : String) (u : x.Url) (ds : List (RpcDataset x))
          → x.parse_url uri ≡ some u
          → Reaches u (reply_to valid valid_error requester)
          → p.get_catalogue requester ≡ ok ds
          → valid (catalogue_of x k c ds) ≡ true
          → AllPlainUrns ds
          → get_provider_catalogue x k r codec uri ≡ ok (map listed ds)
      unfolding get_provider_catalogue
      get_provider_catalogue-listed valid valid_error requester uri u ds hu w h e plain =
          let reply = reply_to valid valid_error requester in
          let b = body-reply_to valid valid_error requester ds h e in
          ap (catalogue_at x k r codec) (get_provider_url_reached uri u reply hu w)
          ∙ catalogue_at_reached u reply (catalogue_of x k c ds) w b
          ∙ ap ok (datasets-catalogue_of ds plain)
