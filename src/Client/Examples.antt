-- ===== src/Client/Examples.antt =====
-- Requests on which the theorems about src/client.rs and src/default_headers.rs are applied.
use isahc.Prelude.{ℕ, ◌≡◌, refl, ◌⊎◌, true, false, none, some, List, [], ◌∷◌, ◌++◌}
use isahc.Prelude.Bytes.{Bytes, codes, bytes_eq, starts_with}
use isahc.Prelude.Has.{Has}
use isahc.Prelude.Outcome.{Outcome, ok, lift}
use isahc.Error.{ErrorKind}
use isahc.Http.{http_11, https, Uri}
use isahc.Http.Assoc.{assoc, assoc-HeaderLaws, ascii_texts}
use isahc.Body.{reader, is_empty, body_len}
use isahc.Config.{ClientConfig, RequestConfig, client_defaults}
use isahc.Config.Options.{
  Opt, Features, post_field_size, in_filesize, request_opts, plain_opts, client_opts, version_opts,
  authentication_opts,
}
use isahc.Tls.{
  Engine, is_available, contains_text, default_store, bundle_of, build_tls, TlsConfigBuilder,
  default_builder, accept_invalid_certs,
}
use isahc.Tls.Options.{
  tls_opts, is_modern, trust_opts, proxy_tls_opts, proxy_trust_opts, offer, verify_peer,
  verify_host,
}
use isahc.Request.{Request}
use isahc.Parsing.{header_to_curl_string, is_blank}
use isahc.Client.{uri_to_string, content_length}
use isahc.Client.Easy.{
  create_easy_handle, method_opts, size_opts, body_length, framed_headers, header_lines, front_opts,
  easy_opts,
}
use isahc.Client.Sizes.{sizes}
use isahc.Client.Framing.{lines_given, create_easy_handle-framed}
use isahc.Client.Gather.{for_proxy}
use isahc.Client.Verified.{create_easy_handle-verifies_proxy}

-- OpenSSL as the TLS engine of curl 8.13.0, with one root certificate.
abbrev pub openssl_engine : Engine
openssl_engine = record {
  webpki_roots = some (codes "root" ∷ []);
  version_num = 527616;
  ssl_version = some (codes "OpenSSL/3.0");
  ssl_cert_file = none;
  encode_pem = λ label bytes. label ++ bytes;
}

abbrev pub features : Features
features = record {
  spnego = false;
  http2 = true;
  engine = openssl_engine;
  answers = λ opt. none;
  proxy_answers = λ opt. none;
  show_uri = λ uri. uri.path;
}

abbrev client : ClientConfig
client = record {
  connection_cache_ttl = none;
  close_connections = false;
  dns_cache = none;
  dns_resolve = none;
}

abbrev place : Uri
place = record {
  scheme = some https;
  authority = some (record { userinfo = none; host = codes "a.org"; port = none });
  path = codes "/";
  query = some (codes "q");
}

-- A body of unknown length.
abbrev streamed : Request assoc
streamed = record {
  method = codes "POST";
  uri = place;
  version = http_11;
  headers = (codes "accept", codes "text") ∷ [];
  extensions = record {
    request_config = some (client_defaults openssl_engine);
    cookie_jar = none;
    authentication = none;
  };
  body = reader 7 none;
}

abbrev opts_or_none : Outcome ErrorKind (List Opt) → List Opt
opts_or_none (ok opts) = opts
opts_or_none _ = []

place_text : uri_to_string place ≡ codes "https://a.org/?q"
unfolding uri_to_string
place_text = refl

abbrev streamed_opts : List Opt
streamed_opts = opts_or_none (create_easy_handle ascii_texts assoc features client false streamed)

streamed_sizes : sizes streamed_opts ≡ []
unfolding create_easy_handle easy_opts front_opts request_opts plain_opts lift starts_with tls_opts
    build_tls is_available contains_text is_modern offer trust_opts default_store bundle_of
    client_opts version_opts authentication_opts method_opts size_opts body_length body_len
    content_length framed_headers header_lines header_to_curl_string is_empty bytes_eq is_blank
streamed_sizes = refl

-- A body of five bytes.
abbrev sized : Request assoc
sized = record streamed { body = reader 7 (some 5) }

abbrev sized_opts : List Opt
sized_opts = opts_or_none (create_easy_handle ascii_texts assoc features client false sized)

sized_sizes : sizes sized_opts ≡ post_field_size 5 ∷ []
unfolding create_easy_handle easy_opts front_opts request_opts plain_opts lift starts_with tls_opts
    build_tls is_available contains_text is_modern offer trust_opts default_store bundle_of
    client_opts version_opts authentication_opts method_opts size_opts body_length body_len
    content_length framed_headers header_lines header_to_curl_string is_empty bytes_eq is_blank
sized_sizes = refl

create_easy_handle-framed_example :
    ((len : ℕ) × (body_length ascii_texts assoc sized ≡ some len)
      × (((bytes_eq (codes "POST") (codes "POST") ≡ true)
            × (sizes sized_opts ≡ post_field_size len ∷ []))
          ⊎ ((bytes_eq (codes "POST") (codes "POST") ≡ false)
              × (sizes sized_opts ≡ in_filesize len ∷ []))))
    ⊎ ((body_length ascii_texts assoc sized ≡ none)
        × (sizes sized_opts ≡ [])
        × (line : Bytes) × (header_to_curl_string ascii_texts
              (codes "transfer-encoding")
              (codes "chunked")
              false
            ≡ ok line)
        × Has line (lines_given sized_opts))
unfolding create_easy_handle easy_opts front_opts request_opts plain_opts lift starts_with tls_opts
    build_tls is_available contains_text is_modern offer trust_opts default_store bundle_of
    client_opts version_opts authentication_opts method_opts size_opts body_length body_len
    content_length framed_headers header_lines header_to_curl_string is_empty bytes_eq is_blank
create_easy_handle-framed_example =
    create_easy_handle-framed ascii_texts assoc features client false assoc-HeaderLaws
      (client_defaults openssl_engine) sized sized_opts refl refl refl

-- A request that goes over a proxy with a certificate of its own making.
abbrev odd_proxy : TlsConfigBuilder
odd_proxy = accept_invalid_certs true (default_builder openssl_engine)

abbrev proxied_config : RequestConfig
proxied_config = record (client_defaults openssl_engine) {
  proxy_tls_config = some (build_tls odd_proxy);
}

abbrev proxied : Request assoc
proxied = record streamed {
  extensions = record streamed.extensions { request_config = some proxied_config };
}

abbrev proxied_opts : List Opt
proxied_opts = opts_or_none (create_easy_handle ascii_texts assoc features client false proxied)

create_easy_handle-verifies_proxy_example :
    for_proxy proxied_opts ≡ verify_peer true ∷ verify_host false ∷ []
unfolding create_easy_handle easy_opts front_opts request_opts plain_opts lift starts_with tls_opts
    build_tls is_available contains_text is_modern offer trust_opts proxy_tls_opts proxy_trust_opts
    default_store bundle_of client_opts version_opts authentication_opts method_opts size_opts
    body_length body_len content_length framed_headers header_lines header_to_curl_string is_empty
    bytes_eq is_blank
create_easy_handle-verifies_proxy_example =
    create_easy_handle-verifies_proxy ascii_texts assoc features client false proxied_config proxied
      proxied_opts (some odd_proxy) refl refl refl
