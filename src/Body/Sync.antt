-- ===== src/Body/Sync.antt =====
-- src/body/sync.rs: the body of a synchronous request, and `HttpClient::send` of src/client.rs, which
-- writes such a body into a pipe while it waits for the response. What the program's reader returns is
-- a list of calls; the pipe of the crate sluice holds so many chunks.
pub mod Stuck
pub mod Late
pub mod Kept
pub mod Ends
mod Examples
use isahc.Prelude.{
  ℕ, ◌+◌, Bool, true, false, not, ◌&&◌, Option, none, some, List, [], ◌∷◌, ◌++◌, length, take, drop,
  ltb, if◌then◌else◌,
}
use isahc.Prelude.Bytes.{Bytes}
use isahc.Prelude.Outcome.{Outcome, ok, err, panic}
use isahc.Error.{IoError, IoErrorKind, broken_pipe}
use isahc.Body.{AsyncBody, empty, buffer, reader, from_bytes}

-- `sync::Body`; a source is the handle of a reader of the program.
pub data Body : Type 0 where
  no_body : Body
  memory : Bytes → ℕ → Body
  source : ℕ → Option ℕ → Body

unfoldable pub sync_is_empty : Body → Bool
sync_is_empty no_body = true
sync_is_empty _ = false

unfoldable pub sync_len : Body → Option ℕ
sync_len no_body = some 0
sync_len (memory bytes position) = some (length bytes)
sync_len (source stream len) = len

unfoldable pub sync_reset : Body → Bool × Body
sync_reset no_body = (true, no_body)
sync_reset (memory bytes position) = (true, memory bytes 0)
sync_reset (source stream len) = (false, source stream len)

-- `Read for Body`, of a body in memory, into a buffer of `size` bytes.
unfoldable pub sync_read : ℕ → Body → Bytes × Body
sync_read size (memory bytes position) =
    let found = take size (drop position bytes) in (found, memory bytes (position + length found))
sync_read size other = ([], other)

-- `Body::into_async`: the pipe that a source is written to, and the source for the writer.
unfoldable pub into_async : ℕ → Body → AsyncBody × Option ℕ
into_async pipe no_body = (empty, none)
into_async pipe (memory bytes position) = (from_bytes bytes, none)
into_async pipe (source stream len) = (reader pipe len, some stream)

-- `AsyncBody::into_sync`; a reader is read by blocking.
unfoldable pub into_sync : AsyncBody → Body
into_sync empty = no_body
into_sync (buffer bytes position) = memory bytes 0
into_sync (reader stream len) = source stream len

-- A call of the reader of the program. At the end of the list it returns `Ok(0)`.
pub data ReadCall : Type 0 where
  read_some : Bytes → ReadCall
  read_interrupted : ReadCall
  read_failed : IoError → ReadCall

-- Who has the other end of the pipe: the handler of the request, from which curl reads it, or the
-- response, to which `build_response` moves the body. Where the transfer fails, `send` returns at once.
pub data PipeEnd : Type 0 where
  in_handler in_response : PipeEnd

-- The two futures that `HttpClient::send` waits for, after `taken` has been read by curl.
pub record Sending : Type 0 where
  pub unread : List ReadCall
  pub pipe : List Bytes
  pub held : PipeEnd
  pub taken : List Bytes
  pub response : Bool
  pub written : Option (Outcome IoError (Unit {0}))

abbrev pub start_sending : List ReadCall → Sending
start_sending calls = record {
  unread = calls;
  pipe = [];
  held = in_handler;
  taken = [];
  response = false;
  written = none;
}

pub data Move : Type 0 where
  writer_moves curl_reads server_answers : Move

abbrev pub finish : Sending → Outcome IoError (Unit {0}) → Option Sending
finish s result = some (record s { written = some result })

-- `write_all` of a chunk waits while the pipe is full.
unfoldable pub write_chunk : ℕ → Sending → Bytes → List ReadCall → Option Sending
write_chunk capacity s chunk more =
    if ltb (length s.pipe) capacity
    then some (record s { unread = more; pipe = s.pipe ++ chunk ∷ [] })
    else none

-- The next turn of the loop of `Writer::write`, of what is still to be read, or `none` while it has to
-- wait.
unfoldable pub write_turn : ℕ → Sending → List ReadCall → Option Sending
write_turn capacity s [] = finish s (ok tt)
write_turn capacity s (read_some [] ∷ more) = finish s (ok tt)
write_turn capacity s (read_some (c ∷ cs) ∷ more) = write_chunk capacity s (c ∷ cs) more
write_turn capacity s (read_interrupted ∷ more) = some (record s { unread = more })
write_turn capacity s (read_failed e ∷ more) = finish s (err e)

abbrev pub write_next : ℕ → Sending → Option Sending
write_next capacity s = write_turn capacity s s.unread

-- One move of those that take part, or `none` if it cannot move.
unfoldable pub move : ℕ → Move → Sending → Option Sending
move capacity writer_moves s = elim s.written [ none ↦ write_next capacity s | some result ↦ none ]
move capacity curl_reads s = elim s.held [
  | in_handler ↦ elim s.pipe [
    | [] ↦ none
    | chunk ∷ more ↦ some (record s { pipe = more; taken = s.taken ++ chunk ∷ [] })
  ]
  | _ ↦ none
]
move capacity server_answers s =
    if s.response then none else some (record s { response = true; held = in_response })

unfoldable pub run_moves : ℕ → List Move → Sending → Option Sending
run_moves capacity [] s = some s
run_moves capacity (m ∷ more) s = elim (move capacity m s) [
  | none ↦ none
  | some next ↦ run_moves capacity more next
]

-- `try_zip` returns when both futures have, or one of them has failed.
unfoldable pub is_returned : Sending → Bool
is_returned s = elim s.written [
  | none ↦ false
  | some result ↦ elim result [ ok done ↦ s.response | _ ↦ true ]
]
