-- ===== src/Body.antt =====
-- src/body/mod.rs: the body of an asynchronous request. A stream is the handle of a reader that is
-- no part of the program; `Cursor` is a buffer and the position in it.
pub mod Sync
use isahc.Prelude.{ℕ, ◌+◌, Bool, true, false, Option, some, [], length, take, drop}
use isahc.Prelude.Bytes.{Bytes}
use isahc.Error.{IoError}

pub data AsyncBody : Type 0 where
  empty : AsyncBody
  buffer : Bytes → ℕ → AsyncBody
  reader : ℕ → Option ℕ → AsyncBody

abbrev pub from_bytes : Bytes → AsyncBody
from_bytes bytes = buffer bytes 0

unfoldable pub is_empty : AsyncBody → Bool
is_empty empty = true
is_empty _ = false

-- `AsyncBody::len`
unfoldable pub body_len : AsyncBody → Option ℕ
body_len empty = some 0
body_len (buffer bytes position) = some (length bytes)
body_len (reader stream len) = len

-- `AsyncBody::reset`: what it returns, and the body after the call.
unfoldable pub reset : AsyncBody → Bool × AsyncBody
reset empty = (true, empty)
reset (buffer bytes position) = (true, buffer bytes 0)
reset (reader stream len) = (false, reader stream len)

-- `AsyncRead::poll_read` of a body in memory, into a buffer of `size` bytes.
unfoldable pub read_memory : ℕ → AsyncBody → Bytes × AsyncBody
read_memory size (buffer bytes position) =
    let found = take size (drop position bytes) in (found, buffer bytes (position + length found))
read_memory size other = ([], other)

-- What `poll_read` returns: nothing yet, the bytes that were read (none of them at the end), or an
-- error.
pub data ReadPoll : Type 0 where
  pending : ReadPoll
  ready : Bytes → ReadPoll
  io_failed : IoError → ReadPoll

-- `AsyncBody::poll_read`, into a buffer of `size` bytes; `stream` is the answer of a reader.
unfoldable pub poll_read : ℕ → ReadPoll → AsyncBody → ReadPoll × AsyncBody
unfolding read_memory
poll_read size stream empty = (ready [], empty)
poll_read size stream (buffer bytes position) =
    let (found, body) = read_memory size (buffer bytes position) in (ready found, body)
poll_read size stream (reader handle len) = (stream, reader handle len)
