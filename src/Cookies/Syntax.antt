-- ===== src/Cookies/Syntax.antt =====
-- src/cookies/cookie.rs: the parsers of the parts of a `Set-Cookie` header.
pub mod Laws
use isahc.Prelude.{
  ℕ, ◌-◌, Bool, true, not, ◌&&◌, ◌||◌, Option, none, some, List, [], ◌∷◌, ◌++◌, all, length, take,
  drop, leb, ◌==◌, if◌then◌else◌, between,
}
use isahc.Prelude.Ascii.{is_ascii, is_ascii_control}
use isahc.Prelude.Bytes.{Bytes, codes, contains, starts_with, ends_with}
use isahc.Prelude.Outcome.{Outcome, ok, err, panic, ◌>>=◌}

pub data ParseError : Type 0 where
  parse_error : ParseError

-- The cookie octets of RFC 6265.
abbrev pub is_cookie_octet : ℕ → Bool
is_cookie_octet c =
    c == 0x21
    || between 0x23 0x2B c
    || between 0x2D 0x3A c
    || between 0x3C 0x5B c
    || between 0x5D 0x7E c

unfoldable pub is_valid_cookie_value : Bytes → Bool
is_valid_cookie_value bytes = all is_cookie_octet bytes

-- ( ) < > @ , ; : \ " / [ ] ? = { } space tab
abbrev pub separators : Bytes
separators = codes "()<>@,;:" ++ 0x5C ∷ 0x22 ∷ codes "/[]?={} " ++ 9 ∷ []

abbrev pub is_token_byte : ℕ → Bool
is_token_byte byte = is_ascii byte && not (is_ascii_control byte) && not (contains separators byte)

unfoldable pub is_valid_token : Bytes → Bool
is_valid_token bytes = all is_token_byte bytes

unfoldable pub parse_token : Bytes → Outcome ParseError Bytes
parse_token bytes = if is_valid_token bytes then ok bytes else err parse_error

-- `&bytes[from..to]`, which panics when the range is reversed or out of bounds.
unfoldable pub slice : Bytes → ℕ → ℕ → Outcome ParseError Bytes
slice bytes from to =
    if leb from to && leb to (length bytes) then ok (take (to - from) (drop from bytes)) else panic

abbrev pub quote : Bytes
quote = 0x22 ∷ []

unfoldable pub strip_quotes : Bytes → Outcome ParseError Bytes
unfolding slice
strip_quotes bytes =
    if starts_with bytes quote && ends_with bytes quote
    then slice bytes 1 (length bytes - 1)
    else ok bytes

unfoldable pub parse_cookie_value : Bytes → Outcome ParseError Bytes
parse_cookie_value bytes = do
  octets ← strip_quotes bytes
  if is_valid_cookie_value octets then ok octets else err parse_error

unfoldable pub trim_left_ascii : Bytes → Bytes
trim_left_ascii [] = []
trim_left_ascii (c ∷ cs) = if c == b' ' then trim_left_ascii cs else c ∷ cs

unfoldable pub split_at_first : Bytes → ℕ → Option (Bytes × Bytes)
split_at_first [] separator = none
split_at_first (c ∷ cs) separator =
    if c == separator then some ([], cs) else elim (split_at_first cs separator) [
      | none ↦ none
      | some (before, after) ↦ some (c ∷ before, after)
    ]

prepend : ℕ → List Bytes → List Bytes
prepend c [] = (c ∷ []) ∷ []
prepend c (s ∷ ss) = (c ∷ s) ∷ ss

-- `slice::split`: the parts between the bytes equal to `separator`.
unfoldable pub split : Bytes → ℕ → List Bytes
unfolding prepend
split [] separator = [] ∷ []
split (c ∷ cs) separator =
    let rest = split cs separator in if c == separator then [] ∷ rest else prepend c rest
