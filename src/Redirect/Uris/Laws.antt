-- ===== src/Redirect/Uris/Laws.antt =====
-- The texts that src/redirect.rs makes of URIs, and its test of two authorities.
use isahc.Prelude.{
  ℕ, ◌<◌, ◌*◌, ◌+◌, ◌-◌, All, ltb, if◌then◌else◌, ◌≡◌, refl, ap, ◌∙◌, ◌↔◌, inl, inr, Bool, true,
  false, not, ◌&&◌, Option, none, some, [], ◌∷◌, map, all, arith, Bool-cases, ◌==◌, ◌/◌, ◌%◌,
}
use isahc.Prelude.Ascii.{is_ascii, to_ascii_lowercase}
use isahc.Prelude.Bytes.{
  Bytes, bytes_eq, bytes_eq_iff, bytes_eq_refl, eq_ignore_ascii_case, eq_ignore_ascii_case_refl,
  contains,
}
use isahc.Prelude.Text.{is_utf8}
use isahc.Http.{
  Scheme, http, https, other, Port, Uri, scheme_eq, option_eq, port_eq, uri_host, uri_port,
  is_https,
}
use isahc.Redirect.Uris.{
  Urls, percent_encode, hex_digit, parse_location, create_referer, referer_text, is_same_authority,
}

module _ {A : Type 0} (eq : A → A → Bool) where
  option_eq_refl : ((a : A) → eq a a ≡ true) → (o : Option A) → option_eq eq o o ≡ true
  unfolding option_eq
  option_eq_refl r none = refl
  option_eq_refl r (some a) = r a

  option_eq_trans :
      ((a b c : A) → eq a b ≡ true → eq b c ≡ true → eq a c ≡ true)
      → (a b c : Option A) → option_eq eq a b ≡ true
      → option_eq eq b c ≡ true
      → option_eq eq a c ≡ true
  unfolding option_eq
  option_eq_trans t none none none h k = refl
  option_eq_trans t none none (some c) h k = k
  option_eq_trans t none (some b) c h k = cc
  option_eq_trans t (some a) none c h k = cc
  option_eq_trans t (some a) (some b) none h k = k
  option_eq_trans t (some a) (some b) (some c) h k = t a b c h k

bytes_eq_trans : (a b c : Bytes) → bytes_eq a b ≡ true → bytes_eq b c ≡ true → bytes_eq a c ≡ true
bytes_eq_trans a b c h k = (bytes_eq_iff a c).1 ((bytes_eq_iff a b).0 h ∙ (bytes_eq_iff b c).0 k)

scheme_eq_refl : (s : Scheme) → scheme_eq s s ≡ true
unfolding scheme_eq
scheme_eq_refl http = refl
scheme_eq_refl https = refl
scheme_eq_refl (other s) = eq_ignore_ascii_case_refl s

scheme_eq_trans :
    (a b c : Scheme) → scheme_eq a b ≡ true → scheme_eq b c ≡ true → scheme_eq a c ≡ true
unfolding scheme_eq eq_ignore_ascii_case
scheme_eq_trans http http c h k = k
scheme_eq_trans http https c h k = cc
scheme_eq_trans http (other b) c h k = cc
scheme_eq_trans https https c h k = k
scheme_eq_trans https http c h k = cc
scheme_eq_trans https (other b) c h k = cc
scheme_eq_trans (other a) http c h k = cc
scheme_eq_trans (other a) https c h k = cc
scheme_eq_trans (other a) (other b) http h k = cc
scheme_eq_trans (other a) (other b) https h k = cc
scheme_eq_trans (other a) (other b) (other c) h k =
    bytes_eq_trans (map to_ascii_lowercase a) (map to_ascii_lowercase b) (map to_ascii_lowercase c)
      h k

port_eq_refl : (a : Port) → port_eq a a ≡ true
unfolding port_eq
port_eq_refl a = ground arith

port_eq_trans : (a b c : Port) → port_eq a b ≡ true → port_eq b c ≡ true → port_eq a c ≡ true
unfolding port_eq
port_eq_trans a b c h k = ground arith

-- The scheme, the host and the port of two addresses are the same.
abbrev pub SameOrigin : Uri → Uri → Type 0
SameOrigin a b =
    (option_eq scheme_eq a.scheme b.scheme ≡ true)
    × (option_eq bytes_eq (uri_host a) (uri_host b) ≡ true)
    × (option_eq port_eq (uri_port a) (uri_port b) ≡ true)

pub is_same_authority-SameOrigin : (a b : Uri) → is_same_authority a b ≡ true → SameOrigin a b
unfolding is_same_authority
is_same_authority-SameOrigin a b e = (ground (arith, e), ground (arith, e), ground (arith, e))

pub is_same_authority_refl : (a : Uri) → is_same_authority a a ≡ true
unfolding is_same_authority
is_same_authority_refl a = ground (
  arith,
  option_eq_refl scheme_eq scheme_eq_refl a.scheme,
  option_eq_refl bytes_eq bytes_eq_refl (uri_host a),
  option_eq_refl port_eq port_eq_refl (uri_port a),
)

pub is_same_authority_trans :
    (a b c : Uri)
    → is_same_authority a b ≡ true
    → is_same_authority b c ≡ true
    → is_same_authority a c ≡ true
unfolding is_same_authority
is_same_authority_trans a b c h k = ground (
  arith,
  option_eq_trans scheme_eq scheme_eq_trans a.scheme b.scheme c.scheme,
  option_eq_trans bytes_eq bytes_eq_trans (uri_host a) (uri_host b) (uri_host c),
  option_eq_trans port_eq port_eq_trans (uri_port a) (uri_port b) (uri_port c),
)

hex_digit-is_ascii : (n : ℕ) → n < 16 → is_ascii (hex_digit n) ≡ true
unfolding hex_digit
hex_digit-is_ascii n h = ground arith

-- A byte is below 256.
abbrev pub AreBytes : Bytes → Type 0
AreBytes s = All (λ b. b < 256) s

percent_encode-is_ascii : (s : Bytes) → AreBytes s → all is_ascii (percent_encode s) ≡ true
unfolding percent_encode
percent_encode-is_ascii [] k = refl
percent_encode-is_ascii (b ∷ s) (k, ks) = ground (
  arith,
  percent_encode-is_ascii s ks,
  hex_digit-is_ascii (b / 16) (omega arith),
  hex_digit-is_ascii (b % 16) (omega arith),
)

-- What a reader of percent-encoded text makes of a hexadecimal digit, and of the text.
hex_value : ℕ → ℕ
hex_value c = if ltb c 58 then c - 48 else c - 87

hex_value-hex_digit : (n : ℕ) → n < 16 → hex_value (hex_digit n) ≡ n
unfolding hex_digit hex_value
hex_value-hex_digit n h = ground arith

unfoldable pub percent_decode : Bytes → Bytes
unfolding hex_value
percent_decode [] = []
percent_decode (c ∷ []) = c ∷ []
percent_decode (c ∷ x ∷ []) = c ∷ x ∷ []
percent_decode (c ∷ x ∷ y ∷ s) =
    let decoded = percent_decode s in
    let rest = percent_decode (x ∷ y ∷ s) in
    if c == b'%' then (hex_value x * 16 + hex_value y) ∷ decoded else c ∷ rest

percent_decode_plain :
    (c : ℕ) (s : Bytes) → (c == b'%') ≡ false → percent_decode (c ∷ s) ≡ c ∷ percent_decode s
unfolding percent_decode
percent_decode_plain c [] h = refl
percent_decode_plain c (x ∷ []) h = refl
percent_decode_plain c (x ∷ y ∷ s) h = rw h refl

percent_decode_coded :
    (b : ℕ) (s : Bytes)
    → b < 256
    → percent_decode (b'%' ∷ hex_digit (b / 16) ∷ hex_digit (b % 16) ∷ s) ≡ b ∷ percent_decode s
unfolding percent_decode
percent_decode_coded b s h =
    ap (λ (n : ℕ). n ∷ percent_decode s)
      (omega (
        arith,
        hex_value-hex_digit (b / 16) (omega arith),
        hex_value-hex_digit (b % 16) (omega arith),
      ))

percent_decode-percent_encode :
    (s : Bytes) → AreBytes s → contains s b'%' ≡ false → percent_decode (percent_encode s) ≡ s
unfolding percent_encode percent_decode
percent_decode-percent_encode [] k h = refl
percent_decode-percent_encode (b ∷ s) (k, ks) h = elim (Bool-cases (is_ascii b)) [
  | inl e ↦ rw e (
      percent_decode_plain b (percent_encode s) (ground arith)
      ∙ ap (λ (t : Bytes). b ∷ t) (percent_decode-percent_encode s ks (ground arith)))
  | inr e ↦ rw e (
      percent_decode_coded b (percent_encode s) k
      ∙ ap (λ (t : Bytes). b ∷ t) (percent_decode-percent_encode s ks (ground arith)))
]

-- A `Location` header that the http crate does not take for text, but that is UTF-8, is read as
-- ASCII text that percent-decodes to the header, if the header has no percent sign of its own.
pub parse_location-percent_decode :
    (urls : Urls) (location : Bytes)
    → AreBytes location
    → urls.is_str location ≡ false
    → is_utf8 location ≡ true
    → contains location b'%' ≡ false
    → (text : Bytes) × (parse_location urls location ≡ some text)
      × (all is_ascii text ≡ true)
      × (percent_decode text ≡ location)
unfolding parse_location
parse_location-percent_decode urls location k a u plain = (
  percent_encode location,
  ground arith,
  percent_encode-is_ascii location k,
  percent_decode-percent_encode location k plain,
)

-- A `Referer` is made exactly of an address that is not https or has an https target, and whose text
-- is a header value; it is that text.
pub create_referer_iff :
    (urls : Urls) (uri target : Uri) (referer : Bytes)
    → (create_referer urls uri target ≡ some referer) ↔ (
        ((is_https uri && not (is_https target)) ≡ false)
        × (urls.is_header_value referer ≡ true)
        × (referer_text uri ≡ referer))
unfolding create_referer
create_referer_iff urls uri target referer =
    elim (Bool-cases (is_https uri && not (is_https target))) [
      | inr b ↦ elim (Bool-cases (urls.is_header_value (referer_text uri))) [
        | inl v ↦ grind arith
        | inr v ↦ grind arith
      ]
      | inl b ↦ grind arith
    ]
