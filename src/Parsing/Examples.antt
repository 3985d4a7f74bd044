-- ===== src/Parsing/Examples.antt =====
-- Lines on which the theorems about src/parsing.rs are applied, and the tests of the source.
use isahc.Prelude.{◌≡◌, refl, ap, ◌↔◌, true, false, Option, none, some, [], ◌∷◌, ◌++◌}
use isahc.Prelude.Bytes.{Bytes, codes, contains, bytes_eq}
use isahc.Prelude.Outcome.{ok}
use isahc.Http.{http_09, http_11}
use isahc.Http.Assoc.{ascii_texts}
use isahc.Cookies.Syntax.{split_at_first}
use isahc.Parsing.{
  parse_header, parse_status_line, header_to_curl_string, trim_start, trim_end, split_whitespace,
  find_text, parse_version, title, is_blank,
}
use isahc.Parsing.Lines.{IsTrimmed, is_space, parse_header_iff}
use isahc.Parsing.Status.{IsStatusLine, parse_status_line_iff}
use isahc.Parsing.RoundTrip.{AnyCase, parse_header-header_to_curl_string}

abbrev crlf : Bytes
crlf = 13 ∷ 10 ∷ []

-- parse_valid_status_line, parse_valid_headers, normal_header_to_curl_string_title_case and
-- blank_header_to_curl_string of the source.
status_09 : parse_status_line ascii_texts (codes "HTTP/0.9  200  " ++ crlf) ≡ some (http_09, 200)
unfolding parse_status_line split_whitespace find_text parse_version bytes_eq
status_09 = refl

status_4 : parse_status_line ascii_texts (codes "HTTP/4 200" ++ crlf) ≡ none
unfolding parse_status_line split_whitespace find_text parse_version bytes_eq
status_4 = refl

server :
    parse_header ascii_texts (codes "x-Server:     Rust " ++ 13 ∷ [])
    ≡ some (codes "x-server", codes "Rust")
unfolding parse_header split_at_first trim_start trim_end
server = refl

agent :
    header_to_curl_string ascii_texts (codes "user-agent") (codes "foo") true
    ≡ ok (codes "User-Agent: foo")
unfolding header_to_curl_string title is_blank
agent = refl

blank : header_to_curl_string ascii_texts (codes "user-agent") [] false ≡ ok (codes "user-agent;")
unfolding header_to_curl_string is_blank
blank = refl

parse_status_line_iff_example :
    (parse_status_line ascii_texts (codes "HTTP/1.1 302 Found" ++ crlf) ≡ some (http_11, 302))
    ↔ IsStatusLine ascii_texts (codes "HTTP/1.1 302 Found" ++ crlf) http_11 302
parse_status_line_iff_example =
    parse_status_line_iff ascii_texts (codes "HTTP/1.1 302 Found" ++ crlf) http_11 302

parse_header_iff_example :
    (parse_header ascii_texts (codes "A: b " ++ crlf) ≡ some (codes "a", codes "b")) ↔ (
      (before lead trail : Bytes) × (codes "A: b " ++ crlf
        ≡ before ++ b':' ∷ (lead ++ (codes "b" ++ trail)))
      × (contains before b':' ≡ false)
      × (is_space lead ≡ true)
      × (is_space trail ≡ true)
      × IsTrimmed (codes "b")
      × (ascii_texts.to_header_name before ≡ some (codes "a"))
      × (ascii_texts.is_header_value (codes "b") ≡ true))
parse_header_iff_example =
    parse_header_iff ascii_texts (codes "A: b " ++ crlf) (codes "a") (codes "b")

ascii_texts-AnyCase : AnyCase ascii_texts
ascii_texts-AnyCase = record { any_case = λ s t e. ap {B = Option Bytes} some e }

header_example :
    (line : Bytes) × (header_to_curl_string ascii_texts (codes "user-agent") (codes "foo") true
      ≡ ok line)
    × (parse_header ascii_texts (line ++ crlf) ≡ some (codes "user-agent", codes "foo"))
unfolding trim_start trim_end
header_example =
    parse_header-header_to_curl_string ascii_texts ascii_texts-AnyCase (codes "user-agent") b'f'
      (codes "oo") true refl refl refl refl refl (refl, refl)
