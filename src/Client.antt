-- ===== src/Client.antt =====
-- src/client.rs, src/default_headers.rs and src/headers.rs: what the client does with a request before
-- curl has it, and with the response after.
pub mod Easy
pub mod Plain
pub mod Sizes
pub mod Framing
pub mod Gather
pub mod Verified
pub mod Defaults
pub mod Builder
pub mod Chain
pub mod Examples
use isahc.Prelude.{
  ℕ, Bool, true, false, not, ◌&&◌, Option, none, some, List, [], ◌∷◌, ◌++◌, map, or_else, unwrap_or,
  if◌then◌else◌,
}
use isahc.Prelude.Bytes.{Bytes, codes, bytes_eq}
use isahc.Prelude.Text.{parse_u64}
use isahc.Prelude.Outcome.{Outcome, ok, err, panic, Infallible, ◌>>=◌}
use isahc.Http.{
  Uri, Authority, Method, HeaderMap, HeaderName, HeaderText, first, contains_key, scheme_as_str,
  is_some_value,
}
use isahc.Body.{AsyncBody, empty, reader, is_empty, body_len}
use isahc.Config.{RequestConfig, merge}
use isahc.Request.{Request}

abbrev authority_as_str : Option Authority → Bytes
authority_as_str none = []
authority_as_str (some authority) =
    elim authority.userinfo [ none ↦ [] | some userinfo ↦ userinfo ++ codes "@" ]
    ++ authority.host
    ++ elim authority.port [ none ↦ [] | some port ↦ b':' ∷ port.digits ]

unfoldable pub uri_to_string : Uri → Bytes
uri_to_string uri =
    elim uri.scheme [ none ↦ [] | some scheme ↦ scheme_as_str scheme ++ codes "://" ]
    ++ authority_as_str uri.authority
    ++ uri.path
    ++ elim uri.query [ none ↦ [] | some query ↦ b'?' ∷ query ]

module _ (texts : HeaderText) (h : HeaderMap) where
  -- `HasHeaders::content_length`
  unfoldable pub content_length : h.Map → Option ℕ
  content_length headers = elim (first (h.get_all (codes "content-length") headers)) [
    | none ↦ none
    | some value ↦ if texts.is_str value then parse_u64 value else none
  ]

  -- The first lines of `send_async_inner`: the configuration of the client fills that of the request.
  unfoldable pub populate : RequestConfig → Request h → Request h
  populate defaults request = record request {
    extensions = record request.extensions {
      request_config = elim request.extensions.request_config [
        | none ↦ some defaults
        | some config ↦ some (merge config defaults)
      ];
    };
  }

  append_values : HeaderName → List Bytes → h.Map → h.Map
  append_values name [] headers = headers
  append_values name (value ∷ more) headers = append_values name more (h.append name value headers)

  -- `DefaultHeadersInterceptor::intercept` up to the call of `send`.
  unfoldable pub add_defaults : h.Map → List HeaderName → h.Map → h.Map
  unfolding append_values
  add_defaults defaults [] headers = headers
  add_defaults defaults (name ∷ more) headers = add_defaults defaults more (
      if contains_key h name headers
      then headers
      else append_values name (h.get_all name defaults) headers)

  -- `headers.entry(USER_AGENT).or_insert(..)`
  unfoldable pub default_user_agent : Bytes → h.Map → h.Map
  default_user_agent agent headers =
      if contains_key h (codes "user-agent") headers
      then headers
      else h.insert (codes "user-agent") agent headers

  -- The length that the body of a response is given.
  unfoldable pub response_len : Bool → h.Map → Option ℕ
  response_len is_automatic_decompression headers = elim (content_length headers) [
    | none ↦ none
    | some len ↦ elim (first (h.get_all (codes "content-encoding") headers)) [
      | none ↦ some len
      | some value ↦
          if is_automatic_decompression && not (bytes_eq value (codes "identity"))
          then none
          else some len
    ]
  ]

  -- The body of a response: `stream` is the reader of the pipe.
  unfoldable pub response_body : Method → Bool → ℕ → h.Map → AsyncBody
  response_body method is_automatic_decompression stream headers =
      if bytes_eq method (codes "HEAD")
      then empty
      else reader stream (response_len is_automatic_decompression headers)
