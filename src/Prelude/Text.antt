-- ===== src/Prelude/Text.antt =====
-- Rust's conversions from bytes to text and numbers: `str::from_utf8` and `str::parse::<u64>`.
use Prim.Native.Nat.{ℕ, ◌+◌, ◌-◌, ◌*◌, ◌^◌, ◌<◌}
use mathlib.Core.Path.{◌≡◌}
use native.Mathlib.Omega.{arith}
use mathlib.Core.Bool.{Bool, true, false, ◌&&◌}
use mathlib.Core.List.{List, [], ◌∷◌}
use mathlib.Core.Option.{Option, none, some}
use isahc.Prelude.Tests.{ltb, ◌==◌, if◌then◌else◌, between}
use isahc.Prelude.Ascii.{is_ascii_digit}
use isahc.Prelude.Bytes.{Bytes}

-- The ranges of the continuation bytes that a leading byte asks for.
utf8_tail : ℕ → Option (List (ℕ × ℕ))
utf8_tail c =
    if ltb c 0x80
    then some []
    else if between 0xC2 0xDF c
    then some (any_byte ∷ [])
    else if c == 0xE0
    then some ((0xA0, 0xBF) ∷ any_byte ∷ [])
    else if c == 0xED
    then some ((0x80, 0x9F) ∷ any_byte ∷ [])
    else if between 0xE1 0xEF c
    then some (any_byte ∷ any_byte ∷ [])
    else if c == 0xF0
    then some ((0x90, 0xBF) ∷ any_byte ∷ any_byte ∷ [])
    else if between 0xF1 0xF3 c
    then some (any_byte ∷ any_byte ∷ any_byte ∷ [])
    else if c == 0xF4
    then some ((0x80, 0x8F) ∷ any_byte ∷ any_byte ∷ [])
    else none
  where
    any_byte : ℕ × ℕ
    any_byte = (0x80, 0xBF)

utf8_from : List (ℕ × ℕ) → Bytes → Bool
utf8_from [] [] = true
utf8_from ((lo, hi) ∷ more) [] = false
utf8_from [] (c ∷ cs) = elim (utf8_tail c) [ none ↦ false | some more ↦ utf8_from more cs ]
utf8_from ((lo, hi) ∷ more) (c ∷ cs) = between lo hi c && utf8_from more cs

-- Does `str::from_utf8` succeed?
unfoldable pub is_utf8 : Bytes → Bool
unfolding utf8_tail utf8_from
is_utf8 s = utf8_from [] s

u64_digits : ℕ → Bytes → Option ℕ
u64_digits n [] = some n
u64_digits n (c ∷ cs) =
    let m = n * 10 + (c - 48) in
    let rest = u64_digits m cs in if is_ascii_digit c && ltb m (2 ^ 64) then rest else none

-- An empty text, a lone sign, a minus sign and an overflow are errors; a plus sign is skipped.
unfoldable pub parse_u64 : Bytes → Option ℕ
unfolding u64_digits
parse_u64 [] = none
parse_u64 (c ∷ []) = u64_digits 0 (c ∷ [])
parse_u64 (c ∷ d ∷ cs) = if c == b'+' then u64_digits 0 (d ∷ cs) else u64_digits 0 (c ∷ d ∷ cs)

u64_digits-lt : (n m : ℕ) (s : Bytes) → n < 2 ^ 64 → u64_digits n s ≡ some m → m < 2 ^ 64
unfolding u64_digits
u64_digits-lt n m [] h e = ground arith
u64_digits-lt n m (c ∷ cs) h e = ground (arith, u64_digits-lt (n * 10 + (c - 48)) m cs)

-- A number that was read fits its word.
pub parse_u64-lt : (s : Bytes) (m : ℕ) → parse_u64 s ≡ some m → m < 2 ^ 64
unfolding parse_u64
parse_u64-lt [] m e = cc
parse_u64-lt (c ∷ []) m e = u64_digits-lt 0 m (c ∷ []) (omega arith) e
parse_u64-lt (c ∷ d ∷ cs) m e =
    ground (arith, u64_digits-lt 0 m (d ∷ cs), u64_digits-lt 0 m (c ∷ d ∷ cs))
