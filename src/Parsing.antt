-- ===== src/Parsing.antt =====
-- src/parsing.rs: the lines that curl hands over, and those that it is given.
pub mod Lines
pub mod Status
pub mod RoundTrip
mod Examples
use isahc.Prelude.{
  ℕ, ◌==◌, Bool, true, false, not, ◌||◌, Option, none, some, List, [], ◌∷◌, ◌++◌, all, between,
  if◌then◌else◌,
}
use isahc.Prelude.Ascii.{is_ascii_whitespace, is_ascii_alphanumeric, to_ascii_uppercase}
use isahc.Prelude.Bytes.{Bytes, codes, bytes_eq}
use isahc.Prelude.Outcome.{Outcome, Infallible, ok, panic}
use isahc.Http.{HeaderName, HeaderText, Version, http_09, http_10, http_11, http_2, http_3}
use isahc.Cookies.Syntax.{split_at_first}

-- `Option::and_then` as a sequence.
infixl 5 ◌>>=◌
abbrev pub ◌>>=◌ {ℓ κ} : {A : Type ℓ} {B : Type κ} → Option A → (A → Option B) → Option B
none >>= rest = none
some a >>= rest = rest a

extend : ℕ → List Bytes → List Bytes
extend c [] = (c ∷ []) ∷ []
extend c (s ∷ ss) = (c ∷ s) ∷ ss

-- `slice::split(u8::is_ascii_whitespace)`
unfoldable pub split_whitespace : Bytes → List Bytes
unfolding extend
split_whitespace [] = [] ∷ []
split_whitespace (c ∷ cs) =
    let rest = split_whitespace cs in if is_ascii_whitespace c then [] ∷ rest else extend c rest

-- `find(|s| !s.is_empty())`
unfoldable pub find_text : List Bytes → Option Bytes
find_text [] = none
find_text ([] ∷ more) = find_text more
find_text ((c ∷ cs) ∷ more) = some (c ∷ cs)

unfoldable pub parse_version : Bytes → Option Version
parse_version text =
    if bytes_eq text (codes "HTTP/3")
    then some http_3
    else if bytes_eq text (codes "HTTP/2")
    then some http_2
    else if bytes_eq text (codes "HTTP/1.1")
    then some http_11
    else if bytes_eq text (codes "HTTP/1.0")
    then some http_10
    else if bytes_eq text (codes "HTTP/0.9")
    then some http_09
    else none

unfoldable pub trim_start : Bytes → Bytes
trim_start [] = []
trim_start (c ∷ cs) = let rest = trim_start cs in if is_ascii_whitespace c then rest else c ∷ cs

unfoldable pub trim_end : Bytes → Bytes
trim_end [] = []
trim_end (c ∷ cs) = elim (trim_end cs) [
  | [] ↦ if is_ascii_whitespace c then [] else c ∷ []
  | x ∷ xs ↦ c ∷ x ∷ xs
]

-- The name in title case: a letter is raised at the start and behind each byte that is neither a
-- letter nor a digit.
unfoldable pub title : Bool → Bytes → Bytes
title at_start_of_word [] = []
title at_start_of_word (byte ∷ more) =
    (if at_start_of_word then to_ascii_uppercase byte else byte)
    ∷ title (not (is_ascii_alphanumeric byte)) more

-- `str::trim` leaves nothing, of an ASCII text.
unfoldable pub is_blank : Bytes → Bool
is_blank text = all (λ c. c == 32 || between 9 13 c) text

module _ (texts : HeaderText) where
  status_of : List Bytes → Option (Version × ℕ)
  status_of [] = none
  status_of (first ∷ more) = do
    version ← parse_version first
    text ← find_text more
    status_code ← texts.to_status text
    some (version, status_code)

  unfoldable pub parse_status_line : Bytes → Option (Version × ℕ)
  unfolding status_of
  parse_status_line line = status_of (split_whitespace line)

  unfoldable pub parse_header : Bytes → Option (HeaderName × Bytes)
  parse_header line = do
    (before, after) ← split_at_first line b':'
    name ← texts.to_header_name before
    let value = trim_end (trim_start after)
    if texts.is_header_value value then some (name, value) else none

  unfoldable pub header_to_curl_string : HeaderName → Bytes → Bool → Outcome Infallible Bytes
  header_to_curl_string name value title_case =
      if texts.is_str value
      then ok (
          (if title_case then title true name else name)
          ++ (if is_blank value then codes ";" else codes ": " ++ value))
      else panic
