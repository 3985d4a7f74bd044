-- ===== src/Redirect/Uris.antt =====
-- src/redirect.rs: what it does with URIs: the `Location` header, the `Referer` header, and the test
-- of two authorities.
pub mod Laws
use isahc.Prelude.{
  ℕ, Bool, not, ◌&&◌, Option, none, some, [], ◌∷◌, ◌++◌, ltb, ◌/◌, ◌%◌, ◌+◌, ◌-◌, if◌then◌else◌,
}
use isahc.Prelude.Ascii.{is_ascii}
use isahc.Prelude.Bytes.{Bytes, codes, bytes_eq}
use isahc.Prelude.Text.{is_utf8}
use isahc.Http.{
  Authority, Uri, scheme_eq, scheme_as_str, is_https, uri_host, uri_port, option_eq, port_eq,
}

-- `Url::parse`: a URL in its normal form, a relative reference, or another error.
pub data UrlParse : Type 0 where
  parsed : Bytes → UrlParse
  relative_url_without_base invalid_url : UrlParse

-- The url crate, and the texts of the http crate: `Url::join`, `Uri::try_from`, `Uri::to_string`,
-- whether `HeaderValue::to_str` succeeds, and whether `HeaderValue::try_from` does.
pub record Urls : Type 0 where
  pub parse_url : Bytes → UrlParse
  pub join : Bytes → Bytes → Option Bytes
  pub to_uri : Bytes → Option Uri
  pub uri_to_string : Uri → Bytes
  pub is_str : Bytes → Bool
  pub is_header_value : Bytes → Bool

hex_digit : ℕ → ℕ
hex_digit n = if ltb n 10 then b'0' + n else b'a' + (n - 10)

unfoldable pub percent_encode : Bytes → Bytes
unfolding hex_digit
percent_encode [] = []
percent_encode (byte ∷ more) =
    let rest = percent_encode more in
    if is_ascii byte
    then byte ∷ rest
    else b'%' ∷ hex_digit (byte / 16) ∷ hex_digit (byte % 16) ∷ rest

unfoldable pub is_same_authority : Uri → Uri → Bool
is_same_authority a b =
    option_eq scheme_eq a.scheme b.scheme
    && option_eq bytes_eq (uri_host a) (uri_host b)
    && option_eq port_eq (uri_port a) (uri_port b)

-- The port of an authority, as it is written in a URI.
authority_text : Option Authority → Bytes
authority_text none = []
authority_text (some authority) =
    authority.host ++ elim authority.port [ none ↦ [] | some port ↦ b':' ∷ port.digits ]

unfoldable pub referer_text : Uri → Bytes
unfolding authority_text
referer_text uri =
    elim uri.scheme [ none ↦ [] | some scheme ↦ scheme_as_str scheme ++ codes "://" ]
    ++ authority_text uri.authority
    ++ uri.path
    ++ elim uri.query [ none ↦ [] | some query ↦ b'?' ∷ query ]

module _ (urls : Urls) where
  unfoldable pub parse_location : Bytes → Option Bytes
  parse_location location =
      if urls.is_str location
      then some location
      else if is_utf8 location
      then some (percent_encode location)
      else none

  unfoldable pub resolve : Uri → Bytes → Option Uri
  resolve base target = elim (urls.parse_url target) [
    | parsed url ↦ urls.to_uri url
    | relative_url_without_base ↦ elim (urls.parse_url (urls.uri_to_string base)) [
      | parsed base_url ↦ elim (urls.join base_url target) [
        | none ↦ none
        | some url ↦ urls.to_uri url
      ]
      | relative_url_without_base ↦ none
      | invalid_url ↦ none
    ]
    | invalid_url ↦ none
  ]

  unfoldable pub create_referer : Uri → Uri → Option Bytes
  create_referer uri target_uri =
      if is_https uri && not (is_https target_uri)
      then none
      else if urls.is_header_value (referer_text uri)
      then some (referer_text uri)
      else none
