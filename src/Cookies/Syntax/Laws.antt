-- ===== src/Cookies/Syntax/Laws.antt =====
-- The parsers of src/cookies/cookie.rs: what they split and join, accept and refuse.
use mathlib.Core.Bool.{false≢true}
use mathlib.Core.List.{reverse-append}
use isahc.Prelude.{
  ℕ, suc, ◌-◌, ◌≡◌, refl, sym, ap, ◌∙◌, ◌↔◌, inl, inr, Bool, true, false, none, some, [], ◌∷◌, ◌++◌,
  all, length, length-append, arith, ◌==◌, ==_iff, Bool-cases, take-append,
}
use isahc.Prelude.Bytes.{Bytes, contains, starts_with, ends_with}
use isahc.Prelude.Outcome.{ok, panic}
use isahc.Cookies.Syntax.{
  is_cookie_octet, is_valid_cookie_value, is_token_byte, is_valid_token, parse_token, slice, quote,
  strip_quotes, parse_cookie_value, split_at_first, split,
}

pub split_at_first-append :
    (before after : Bytes) (separator : ℕ)
    → contains before separator ≡ false
    → split_at_first (before ++ separator ∷ after) separator ≡ some (before, after)
unfolding split_at_first
split_at_first-append [] after separator free = ground arith
split_at_first-append (c ∷ cs) after separator free =
    ground (arith, split_at_first-append cs after separator)

pub split_at_first-none :
    (s : Bytes) (separator : ℕ) → contains s separator ≡ false → split_at_first s separator ≡ none
unfolding split_at_first
split_at_first-none [] separator free = refl
split_at_first-none (c ∷ cs) separator free = ground (arith, split_at_first-none cs separator)

pub split_at_first-eq_some :
    (s before after : Bytes) (separator : ℕ)
    → split_at_first s separator ≡ some (before, after)
    → s ≡ before ++ separator ∷ after
unfolding split_at_first
split_at_first-eq_some [] before after separator e = cc
split_at_first-eq_some (c ∷ cs) [] after separator e = ground arith
split_at_first-eq_some (c ∷ cs) (b ∷ before) after separator e =
    ground (arith, split_at_first-eq_some cs before after separator)

pub split_at_first-free :
    (s before after : Bytes) (separator : ℕ)
    → split_at_first s separator ≡ some (before, after)
    → contains before separator ≡ false
unfolding split_at_first
split_at_first-free [] before after separator e = cc
split_at_first-free (c ∷ cs) [] after separator e = refl
split_at_first-free (c ∷ cs) (b ∷ before) after separator e =
    ground (arith, split_at_first-free cs before after separator)

pub split-free :
    (s : Bytes) (separator : ℕ) → contains s separator ≡ false → split s separator ≡ s ∷ []
unfolding split
split-free [] separator free = refl
split-free (c ∷ cs) separator free = ground (arith, split-free cs separator)

pub split-append :
    (before after : Bytes) (separator : ℕ)
    → contains before separator ≡ false
    → split (before ++ separator ∷ after) separator ≡ before ∷ split after separator
unfolding split
split-append [] after separator free = ground arith
split-append (c ∷ cs) after separator free = ground (arith, split-append cs after separator)

-- Stripping the quotes panics on a lone quote, and on nothing else.
strip_quotes_panics : (bytes : Bytes) → strip_quotes bytes ≡ panic → bytes ≡ quote
unfolding strip_quotes starts_with ends_with
strip_quotes_panics [] e = ground arith
strip_quotes_panics (x ∷ []) e = ground arith
strip_quotes_panics (x ∷ y ∷ ys) e = ground arith

quote_panics : parse_cookie_value quote ≡ panic
unfolding parse_cookie_value strip_quotes starts_with ends_with
quote_panics = refl

-- The value parser panics on a value that is one double quote, and on no other value.
pub parse_cookie_value_panics :
    (bytes : Bytes) → (parse_cookie_value bytes ≡ panic) ↔ (bytes ≡ quote)
unfolding parse_cookie_value
parse_cookie_value_panics bytes =
    (λ e. ground (arith, strip_quotes_panics bytes), λ e. rw e quote_panics)

pub parse_cookie_value-IsValid :
    (bytes v : Bytes) → parse_cookie_value bytes ≡ ok v → is_valid_cookie_value v ≡ true
unfolding parse_cookie_value
parse_cookie_value-IsValid bytes v h = ground arith

pub parse_token-IsValid : (bytes v : Bytes) → parse_token bytes ≡ ok v → is_valid_token v ≡ true
unfolding parse_token
parse_token-IsValid bytes v h = ground arith

unquoted : (v : Bytes) → is_valid_cookie_value v ≡ true → strip_quotes v ≡ ok v
unfolding strip_quotes is_valid_cookie_value starts_with
unquoted [] h = refl
unquoted (c ∷ cs) h = ground arith

-- A value of cookie octets is its own meaning.
pub parse_cookie_value-plain :
    (v : Bytes) → is_valid_cookie_value v ≡ true → parse_cookie_value v ≡ ok v
unfolding parse_cookie_value
parse_cookie_value-plain v h = ground (arith, unquoted v)

ends_quoted : (c : ℕ) (v : Bytes) → ends_with (c ∷ v ++ quote) quote ≡ true
unfolding ends_with starts_with
ends_quoted c v = rw (reverse-append (c ∷ v) quote) refl

slice_quoted : (v : Bytes) → slice (0x22 ∷ v ++ quote) 1 (suc (length (v ++ quote)) - 1) ≡ ok v
unfolding slice
slice_quoted v = ground (arith, length-append v quote, take-append v quote)

-- So is a value of cookie octets between double quotes, which are dropped.
pub parse_cookie_value-quoted :
    (v : Bytes) → is_valid_cookie_value v ≡ true → parse_cookie_value (0x22 ∷ v ++ quote) ≡ ok v
unfolding parse_cookie_value strip_quotes starts_with
parse_cookie_value-quoted v h = ground (arith, ends_quoted 0x22 v, slice_quoted v)

-- What a byte test refuses does not stand in a text that passes it.
all_excludes :
    (p : ℕ → Bool) (c : ℕ) (s : Bytes) → p c ≡ false → all p s ≡ true → contains s c ≡ false
all_excludes p c [] bad h = refl
all_excludes p c (x ∷ xs) bad h = elim (Bool-cases (x == c)) [
  | inl e ↦ absurd (false≢true (sym bad ∙ ap p (sym ((==_iff x c).0 e)) ∙ head))
  | inr e ↦ ground (arith, all_excludes p c xs bad)
]
  where
    head : p x ≡ true
    head = ground arith

pub token_free : (s : Bytes) → is_valid_token s ≡ true → contains s b'=' ≡ false
unfolding is_valid_token
token_free s h = all_excludes is_token_byte b'=' s refl h

pub token_free_semicolon : (s : Bytes) → is_valid_token s ≡ true → contains s b';' ≡ false
unfolding is_valid_token
token_free_semicolon s h = all_excludes is_token_byte b';' s refl h

pub value_free_semicolon : (s : Bytes) → is_valid_cookie_value s ≡ true → contains s b';' ≡ false
unfolding is_valid_cookie_value
value_free_semicolon s h = all_excludes is_cookie_octet b';' s refl h
