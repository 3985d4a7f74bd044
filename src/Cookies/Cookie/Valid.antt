-- ===== src/Cookies/Cookie/Valid.antt =====
-- What the parser and the builder of src/cookies/cookie.rs let through.
use isahc.Prelude.{ℕ, ◌≡◌, true, ◌∷◌, [], arith, List}
use isahc.Prelude.Bytes.{Bytes}
use isahc.Prelude.Outcome.{ok}
use isahc.Platform.{Platform}
use isahc.Cookies.Syntax.{is_valid_token, is_valid_cookie_value}
use isahc.Cookies.Syntax.Laws.{parse_token-IsValid, parse_cookie_value-IsValid}
use isahc.Cookies.Cookie.{Cookie, CookieBuilder, new_cookie, build, parse_pair, parse_parts, parse}

pub record IsValid (c : Cookie) : Type 0 where
  pub name : is_valid_token c.name ≡ true
  pub value : is_valid_cookie_value c.value ≡ true

module _ (p : Platform) (now : ℕ) where
  parse_parts-IsValid :
      (parts : List Bytes) (c : Cookie) → parse_parts p now parts ≡ ok c → IsValid c
  unfolding parse_parts parse_pair
  parse_parts-IsValid [] c h = cc
  parse_parts-IsValid (pair ∷ attributes) c h =
      grind (arith, parse_token-IsValid, parse_cookie_value-IsValid)

  -- A cookie that the parser returns has a token for a name, and cookie octets for a value.
  pub parse-IsValid : (header : Bytes) (c : Cookie) → parse p now header ≡ ok c → IsValid c
  unfolding parse
  parse-IsValid header c h = parse_parts-IsValid _ c h

pub build-IsValid : (b : CookieBuilder) (c : Cookie) → build b ≡ ok c → IsValid c
unfolding build new_cookie
build-IsValid b c h = ground arith
