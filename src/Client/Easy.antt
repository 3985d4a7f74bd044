-- ===== src/Client/Easy.antt =====
-- `HttpClient::create_easy_handle` of src/client.rs: the options that curl is given for a request, in
-- their order. Curl may refuse an option; the source stops there with its error.
use isahc.Prelude.{
  ℕ, Bool, true, false, not, ◌&&◌, Option, none, some, List, [], ◌∷◌, ◌++◌, map, or_else, unwrap_or,
  if◌then◌else◌,
}
use isahc.Prelude.Bytes.{Bytes, codes, bytes_eq}
use isahc.Prelude.Outcome.{Outcome, ok, panic, Infallible, lift, ◌>>=◌}
use isahc.Error.{ErrorKind}
use isahc.Http.{Method, HeaderMap, HeaderName, HeaderText}
use isahc.Body.{is_empty, body_len}
use isahc.Config.{RequestConfig, ClientConfig, is_disabled}
use isahc.Config.Options.{
  Opt, verbose, signal, get, nobody, post, upload, custom_request, url, post_field_size,
  in_filesize, http_headers, Features, request_opts, client_opts,
}
use isahc.Request.{Request}
use isahc.Parsing.{header_to_curl_string}
use isahc.Client.{content_length, uri_to_string}

unfoldable pub method_opts : Method → Bool → List Opt
method_opts method has_body =
    if bytes_eq method (codes "GET") && not has_body
    then get true ∷ []
    else if bytes_eq method (codes "HEAD") && not has_body
    then nobody true ∷ []
    else if bytes_eq method (codes "POST") && has_body
    then post true ∷ []
    else if bytes_eq method (codes "PUT") && has_body
    then upload true ∷ []
    else upload has_body ∷ custom_request method ∷ []

unfoldable pub size_opts : Method → Option ℕ → List Opt
size_opts method none = []
size_opts method (some len) =
    (if bytes_eq method (codes "POST") then post_field_size len else in_filesize len) ∷ []

abbrev pub expect_is_disabled : RequestConfig → Bool
expect_is_disabled config = elim config.expect_continue [
  | none ↦ false
  | some expect ↦ is_disabled expect
]

module _ (texts : HeaderText) (h : HeaderMap) where
  -- The length that the request declares, or that its body has.
  unfoldable pub body_length : Request h → Option ℕ
  body_length request = or_else (content_length texts h request.headers) (body_len request.body)

  -- A body of unknown length is sent in chunks.
  unfoldable pub framed_headers : Request h → h.Map
  framed_headers request =
      if is_empty request.body then request.headers else elim (body_length request) [
        | none ↦ h.insert (codes "transfer-encoding") (codes "chunked") request.headers
        | some len ↦ request.headers
      ]

  abbrev pub pairs : h.Map → List HeaderName → List (HeaderName × Bytes)
  pairs headers [] = []
  pairs headers (name ∷ more) =
      map (λ value. (name, value)) (h.get_all name headers) ++ pairs headers more

  -- The headers as curl is given them.
  unfoldable pub header_lines : Bool → List (HeaderName × Bytes) → Outcome Infallible (List Bytes)
  header_lines title_case [] = ok []
  header_lines title_case ((name, value) ∷ more) = do
    line ← header_to_curl_string texts name value title_case
    rest ← header_lines title_case more
    ok (line ∷ rest)

  module _ (features : Features) (client : ClientConfig) (debug : Bool) where
    -- The options in front of the headers, with those of the configuration.
    unfoldable pub front_opts : Request h → List Opt → List Opt
    front_opts request configured =
        verbose debug
        ∷ signal false
        ∷ (configured
            ++ (client_opts client
                ++ (method_opts request.method (not (is_empty request.body))
                    ++ (url (uri_to_string request.uri)
                        ∷ (if is_empty request.body
                            then []
                            else size_opts request.method (body_length request))))))

    unfoldable pub easy_opts : RequestConfig → Request h → Outcome ErrorKind (List Opt)
    easy_opts config request = do
      configured ← request_opts features config
      lines ← lift (
          header_lines (unwrap_or config.title_case_headers false)
            (pairs (framed_headers request) (h.keys (framed_headers request))))
      ok (
          front_opts request configured
          ++ http_headers
              (lines ++ (if expect_is_disabled config then codes "Expect:" ∷ [] else []))
            ∷ [])

    unfoldable pub create_easy_handle : Request h → Outcome ErrorKind (List Opt)
    create_easy_handle request = elim request.extensions.request_config [
      | none ↦ panic
      | some config ↦ easy_opts config request
    ]
