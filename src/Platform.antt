-- ===== src/Platform.antt =====
-- What the program takes from libraries that are no part of it, as one parameter: the Unicode case
-- tables, the address parsers, the HTTP dates, the public suffix list and the range of the clock.
use isahc.Prelude.{ℕ, Bool, true, ◌≡◌, Option, map, all}
use isahc.Prelude.Ascii.{is_ascii, to_ascii_lowercase}
use isahc.Prelude.Bytes.{Bytes}

-- Times are nanoseconds since the Unix epoch; `max_time` is the last one that `SystemTime` holds.
pub record Platform : Type 0 where
  pub to_lowercase : Bytes → Bytes
  pub is_ip_addr : Bytes → Bool
  pub parse_http_date : Bytes → Option ℕ
  pub is_public_suffix : Bytes → Bool
  pub max_time : ℕ

-- Documented behaviour of `str::to_lowercase`: on ASCII text it is the ASCII map.
pub record LowersAscii (p : Platform) : Type 0 where
  pub lowers : (s : Bytes) → all is_ascii s ≡ true → p.to_lowercase s ≡ map to_ascii_lowercase s
