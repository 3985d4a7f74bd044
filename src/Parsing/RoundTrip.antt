-- ===== src/Parsing/RoundTrip.antt =====
-- `header_to_curl_string` of src/parsing.rs, against the parser of the lines that come back.
use isahc.Prelude.{
  ℕ, ◌≡◌, refl, ◌∙◌, Bool, true, false, not, some, [], ◌∷◌, ◌++◌, append_assoc, map, arith, ◌==◌,
  if◌then◌else◌,
}
use isahc.Prelude.Ascii.{is_ascii_alphanumeric, to_ascii_lowercase, to_ascii_uppercase}
use isahc.Prelude.Bytes.{Bytes, codes, contains}
use isahc.Prelude.Outcome.{ok}
use isahc.Http.{HeaderName, HeaderText}
use isahc.Parsing.{title, is_blank, parse_header, header_to_curl_string}
use isahc.Parsing.Lines.{IsTrimmed, parse_header-made, trim_start-head}

-- Documented behaviour of `HeaderName::from_bytes`: it reads a name in any case.
pub record AnyCase (texts : HeaderText) : Type 0 where
  pub any_case :
      (s t : Bytes)
      → map to_ascii_lowercase s ≡ map to_ascii_lowercase t
      → texts.to_header_name s ≡ texts.to_header_name t

lower-upper : (c : ℕ) → to_ascii_lowercase (to_ascii_uppercase c) ≡ to_ascii_lowercase c
lower-upper c = ground arith

-- Title case changes nothing but the case.
pub lower-title :
    (start : Bool) (name : Bytes)
    → map to_ascii_lowercase (title start name) ≡ map to_ascii_lowercase name
unfolding title
lower-title start [] = refl
lower-title true (c ∷ name) =
    rw (lower-upper c, lower-title (not (is_ascii_alphanumeric c)) name) refl
lower-title false (c ∷ name) = rw (lower-title (not (is_ascii_alphanumeric c)) name) refl

upper-colon : (c : ℕ) → (c == b':') ≡ false → (to_ascii_uppercase c == b':') ≡ false
upper-colon c h = ground arith

title-colon :
    (start : Bool) (name : Bytes)
    → contains name b':' ≡ false
    → contains (title start name) b':' ≡ false
unfolding title
title-colon start [] h = refl
title-colon true (c ∷ name) h =
    ground (arith, upper-colon c, title-colon (not (is_ascii_alphanumeric c)) name)
title-colon false (c ∷ name) h = ground (arith, title-colon (not (is_ascii_alphanumeric c)) name)

-- A value that is trimmed and not empty is not blank, unless it begins with a vertical tab.
is_blank-trimmed :
    (c : ℕ) (text : Bytes) → (c == 11) ≡ false → IsTrimmed (c ∷ text) → is_blank (c ∷ text) ≡ false
unfolding is_blank
is_blank-trimmed c text h t = ground (arith, trim_start-head c text t.0)

module _ (texts : HeaderText) where
  -- A header that is given to curl, in either case, and that comes back as a line of its own, is
  -- read as the same name and value: for a name without a colon that the http crate reads as itself,
  -- and a header value of printable text that is trimmed, not empty, and does not begin with a
  -- vertical tab.
  pub parse_header-header_to_curl_string :
      AnyCase texts
      → (name : HeaderName) (c : ℕ) (text : Bytes) (title_case : Bool)
      → texts.to_header_name name ≡ some name
      → contains name b':' ≡ false
      → texts.is_str (c ∷ text) ≡ true
      → texts.is_header_value (c ∷ text) ≡ true
      → (c == 11) ≡ false
      → IsTrimmed (c ∷ text)
      → (line : Bytes) × (header_to_curl_string texts name (c ∷ text) title_case ≡ ok line)
        × (parse_header texts (line ++ 13 ∷ 10 ∷ []) ≡ some (name, c ∷ text))
  unfolding header_to_curl_string
  parse_header-header_to_curl_string cases name c text title_case named free str valid no_tab t = (
    (if title_case then title true name else name) ++ (codes ": " ++ c ∷ text),
    rw (str, is_blank-trimmed c text no_tab t) refl,
    rw
        (append_assoc (if title_case then title true name else name) (codes ": " ++ c ∷ text)
          (13 ∷ 10 ∷ []))
        (parse_header-made texts name (c ∷ text) _ (b' ' ∷ []) (13 ∷ 10 ∷ [])
          (printed_free title_case) refl refl t (printed_name title_case) valid),
  )
    where
      printed_free :
          (title_case : Bool) → contains (if title_case then title true name else name) b':' ≡ false
      printed_free true = title-colon true name free
      printed_free false = free

      printed_name :
          (title_case : Bool)
          → texts.to_header_name (if title_case then title true name else name) ≡ some name
      printed_name true = cases.any_case (title true name) name (lower-title true name) ∙ named
      printed_name false = named
