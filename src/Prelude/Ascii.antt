-- ===== src/Prelude/Ascii.antt =====
-- Rust's tests and maps on one ASCII byte (`u8::is_ascii_…`, `u8::to_ascii_…`).
use Prim.Native.Nat.{ℕ, ◌+◌, ◌-◌}
use mathlib.Core.Bool.{Bool, ◌||◌}
use isahc.Prelude.Tests.{ltb, ◌==◌, if◌then◌else◌, between}

abbrev pub is_ascii : ℕ → Bool
is_ascii c = ltb c 128

abbrev pub is_ascii_control : ℕ → Bool
is_ascii_control c = ltb c 32 || c == 127

-- Space, tab, line feed, form feed, carriage return.
abbrev pub is_ascii_whitespace : ℕ → Bool
is_ascii_whitespace c = c == 32 || c == 9 || c == 10 || c == 12 || c == 13

abbrev pub is_ascii_digit : ℕ → Bool
is_ascii_digit c = between b'0' b'9' c

abbrev pub is_ascii_alphanumeric : ℕ → Bool
is_ascii_alphanumeric c = between b'a' b'z' c || between b'A' b'Z' c || is_ascii_digit c

abbrev pub to_ascii_lowercase : ℕ → ℕ
to_ascii_lowercase c = if between b'A' b'Z' c then c + 32 else c

abbrev pub to_ascii_uppercase : ℕ → ℕ
to_ascii_uppercase c = if between b'a' b'z' c then c - 32 else c
