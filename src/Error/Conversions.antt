-- ===== src/Error/Conversions.antt =====
-- The conversions and categories of src/error.rs.
use isahc.Prelude.{◌≡◌, refl, ◌↔◌, false, ◌&&◌, ◌||◌, arith}
use isahc.Error.{
  ErrorKind, connection_failed, io, timeout, is_client, is_network, is_server, is_timeout,
  connection_refused, timed_out, from_io, to_io,
}

-- An error that went through the I/O interface of a body comes back as it was, and the I/O error
-- alone tells connection failures and timeouts from the rest.
pub from_io-to_io :
    (kind : ErrorKind)
    → (from_io (to_io kind) ≡ kind)
      × (((to_io kind).io_kind ≡ connection_refused) ↔ (kind ≡ connection_failed))
      × (((to_io kind).io_kind ≡ timed_out) ↔ (kind ≡ timeout))
unfolding from_io to_io
from_io-to_io kind = (refl, refused kind, late kind)
  where
    refused : (k : ErrorKind) → ((to_io k).io_kind ≡ connection_refused) ↔ (k ≡ connection_failed)
    refused connection_failed = grind arith
    refused _ = grind arith

    late : (k : ErrorKind) → ((to_io k).io_kind ≡ timed_out) ↔ (k ≡ timeout)
    late timeout = grind arith
    late _ = grind arith

-- No error is put down to two of the client, the network, the server and a timeout.
pub categories_disjoint :
    (kind : ErrorKind)
    → ((is_client kind && (is_network kind || is_server kind || is_timeout kind)) ≡ false)
      × ((is_network kind && (is_server kind || is_timeout kind)) ≡ false)
      × ((is_server kind && is_timeout kind) ≡ false)
unfolding is_client is_network is_server is_timeout
categories_disjoint io = (refl, refl, refl)
categories_disjoint _ = (refl, refl, refl)
