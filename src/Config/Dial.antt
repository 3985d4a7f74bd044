-- ===== src/Config/Dial.antt =====
-- The text form of a `Dialer` in src/config/dial.rs. The parser of socket addresses of the standard
-- library is a parameter: it gives the address as it is printed.
use isahc.Prelude.{
  ℕ, zero, suc, ◌≡◌, refl, Option, none, some, [], ◌∷◌, ◌++◌, drop, ◌==◌, if◌then◌else◌,
}
use isahc.Prelude.Bytes.{Bytes, codes, starts_with}
use isahc.Config.{Dialer, ip_socket, unix_socket}

-- `trim_start_matches('/')`
unfoldable pub trim_slashes : Bytes → Bytes
trim_slashes [] = []
trim_slashes (c ∷ cs) = if c == b'/' then trim_slashes cs else c ∷ cs

-- `Dialer::ip_socket`
abbrev pub dial_address : Bytes → Dialer
dial_address address = ip_socket (codes "::" ++ address)

module _ (parse_socket_addr : Bytes → Option Bytes) where
  -- `FromStr for Dialer`; the error type has one value.
  unfoldable pub dialer_from_str : Bytes → Option Dialer
  dialer_from_str s =
      if starts_with s (codes "tcp:")
      then elim (parse_socket_addr (trim_slashes (drop 4 s))) [
        | none ↦ none
        | some address ↦ some (dial_address address)
      ]
      else if starts_with s (codes "unix:")
      then some (unix_socket (b'/' ∷ trim_slashes (drop 5 s)))
      else none

  pub slashes : ℕ → Bytes
  slashes zero = []
  slashes (suc n) = b'/' ∷ slashes n

  trim_slashes-slashes :
      (n : ℕ) (path : Bytes) → trim_slashes path ≡ path → trim_slashes (slashes n ++ path) ≡ path
  unfolding trim_slashes slashes
  trim_slashes-slashes zero path e = e
  trim_slashes-slashes (suc n) path e = trim_slashes-slashes n path e

  -- However many slashes stand in front of a path, the socket of a Unix address is at that path from
  -- the root; those of an address for TCP are dropped before it is parsed.
  pub dialer_from_str-slashes :
      (n : ℕ) (text : Bytes)
      → trim_slashes text ≡ text
      → (dialer_from_str (codes "unix:" ++ slashes n ++ text) ≡ some (unix_socket (b'/' ∷ text)))
        × (dialer_from_str (codes "tcp:" ++ slashes n ++ text) ≡ (elim (parse_socket_addr text) [
          | none ↦ none
          | some address ↦ some (dial_address address)
        ]))
  unfolding dialer_from_str starts_with
  dialer_from_str-slashes n text e = rw (trim_slashes-slashes n text e) (refl, refl)
