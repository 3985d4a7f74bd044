-- ===== src/Cookies/Cookie/RoundTrip.antt =====
-- What the parser of src/cookies/cookie.rs makes of printed `Set-Cookie` headers.
use isahc.Prelude.{
  ℕ, ◌≡◌, refl, ap, ◌∙◌, true, false, ◌∷◌, ◌++◌, [], arith, List, All, map, append_assoc,
  append-nil,
}
use isahc.Prelude.Bytes.{Bytes, contains}
use isahc.Prelude.Outcome.{ok, ◌>>=◌}
use isahc.Platform.{Platform}
use isahc.Cookies.Syntax.{is_valid_token, split, trim_left_ascii, parse_cookie_value, parse_token}
use isahc.Cookies.Syntax.Laws.{
  split-append, split-free, split_at_first-append, token_free, token_free_semicolon,
}
use isahc.Cookies.Cookie.{
  Cookie, Attributes, parse_pair, parse_parts, parse, set_attributes, no_attributes,
}

-- The printed attributes, each behind `; `.
unfoldable pub print_attributes : List Bytes → Bytes
print_attributes [] = []
print_attributes (a ∷ more) = b';' ∷ b' ' ∷ (a ++ print_attributes more)

unfoldable pub print_header : Bytes → Bytes → List Bytes → Bytes
unfolding print_attributes
print_header name value attributes = name ++ b'=' ∷ (value ++ print_attributes attributes)

-- An attribute that ends at no semicolon of its own and starts with no space.
pub record IsAttribute (a : Bytes) : Type 0 where
  pub closed : contains a b';' ≡ false
  pub trimmed : trim_left_ascii a ≡ a

split_attributes :
    (first : Bytes) (attributes : List Bytes)
    → contains first b';' ≡ false
    → All IsAttribute attributes
    → map trim_left_ascii (split (first ++ print_attributes attributes) b';')
      ≡ trim_left_ascii first ∷ attributes
unfolding print_attributes trim_left_ascii
split_attributes first [] free h = rw (append-nil, split-free first b';' free)
split_attributes first (a ∷ more) free h =
    rw (split-append first _ b';' free)
      (cc (h.0.trimmed, split_attributes (b' ' ∷ a) more h.0.closed h.1))

-- Neither a name nor the end of a header starts with a space.
trim_header :
    (name rest : Bytes)
    → is_valid_token name ≡ true
    → trim_left_ascii (name ++ b'=' ∷ rest) ≡ name ++ b'=' ∷ rest
unfolding trim_left_ascii is_valid_token
trim_header [] rest h = refl
trim_header (c ∷ cs) rest h = ground arith

contains-append :
    (xs ys : Bytes) (c : ℕ)
    → contains xs c ≡ false
    → contains ys c ≡ false
    → contains (xs ++ ys) c ≡ false
contains-append [] ys c h k = k
contains-append (x ∷ xs) ys c h k = ground (arith, contains-append xs ys c)

abbrev cookie_of : Bytes → Bytes → Attributes → Cookie
cookie_of name value a = record {
  name = name;
  value = value;
  domain = a.domain;
  path = a.path;
  secure = a.secure;
  expiration = a.expiration;
}

pair_free :
    (name value : Bytes)
    → is_valid_token name ≡ true
    → contains value b';' ≡ false
    → contains (name ++ b'=' ∷ value) b';' ≡ false
pair_free name value t free =
    contains-append name (b'=' ∷ value) b';' (token_free_semicolon name t) free

parts_of_header :
    (name value : Bytes) (attributes : List Bytes)
    → is_valid_token name ≡ true
    → contains value b';' ≡ false
    → All IsAttribute attributes
    → map trim_left_ascii (split (trim_left_ascii (print_header name value attributes)) b';')
      ≡ (name ++ b'=' ∷ value) ∷ attributes
unfolding print_header
parts_of_header name value attributes t free h =
    rw (trim_header name _ t, ← append_assoc name (b'=' ∷ value) (print_attributes attributes))
      (split_attributes (name ++ b'=' ∷ value) attributes (pair_free name value t free) h
        ∙ ap (λ (s : Bytes). s ∷ attributes) (trim_header name value t))

module _ (p : Platform) (now : ℕ) where
  parse_pair-print :
      (name value : Bytes)
      → is_valid_token name ≡ true
      → parse_pair p now (name ++ b'=' ∷ value) ≡ (do v ← parse_cookie_value value; ok (name, v))
  unfolding parse_pair parse_token
  parse_pair-print name value h =
      rw (split_at_first-append name value b'=' (token_free name h)) (ground arith)

  -- The parser on a printed header, whatever stands for the value between `=` and the first `;`.
  pub parse-print_header :
      (name value : Bytes) (attributes : List Bytes)
      → is_valid_token name ≡ true
      → contains value b';' ≡ false
      → All IsAttribute attributes
      → parse p now (print_header name value attributes) ≡ (do
        v ← parse_cookie_value value
        a ← set_attributes p now attributes no_attributes
        ok (cookie_of name v a))
  unfolding parse
  parse-print_header name value attributes t free h =
      rw (parts_of_header name value attributes t free h)
        (unfold parse_parts in rw (parse_pair-print name value t) (ground arith))
