-- ===== src/Handler.antt =====
-- src/handler.rs: the handler that curl calls back while a request runs. The channel of the response
-- future is the message in it; `canceled` says that its receiver is gone. Wakers are there or not.
-- What curl and the pipe of the response body answer are arguments of the calls. The addresses, the
-- metrics and the logs are not modelled.
pub mod Coherent
pub mod Once
pub mod Lines
pub mod Bodies
mod Examples
use isahc.Prelude.{
  ℕ, zero, Bool, true, false, ◌&&◌, Option, none, some, List, [], ◌∷◌, ◌==◌, if◌then◌else◌,
}
use isahc.Prelude.Bytes.{Bytes, bytes_eq}
use isahc.Prelude.Outcome.{Outcome, ok, err}
use isahc.Http.{HeaderMap, HeaderText, Version}
use isahc.Error.{ErrorKind, unknown, from_io, to_io, plain_io, connection_aborted}
use isahc.Body.{AsyncBody, empty, reset, poll_read, ReadPoll, pending, ready, io_failed}
use isahc.Parsing.{parse_header, parse_status_line}
use isahc.Trailer.{Trailer, TrailerWriter, new_writer, set_once, flush}

-- `Result<(), Error>`: how a transfer ended.
pub data Completion : Type 0 where
  succeeded : Completion
  failed : ErrorKind → Completion

-- The response builder that is sent to the response future.
pub record Built (h : HeaderMap) : Type 0 where
  pub status : Option ℕ
  pub version : Option Version
  pub headers : h.Map
  pub request_body : AsyncBody

pub record RequestHandler (h : HeaderMap) : Type 0 where
  pub sender : Bool
  pub canceled : Bool
  pub sent : Option (Outcome ErrorKind (Built h))
  pub result : Option Completion
  pub request_body : AsyncBody
  pub request_body_waker : Bool
  pub response_status_code : Option ℕ
  pub response_version : Option Version
  pub response_headers : h.Map
  pub response_body_waker : Bool
  pub response_trailer_writer : TrailerWriter h

pub data ReadReturn : Type 0 where
  read_bytes : Bytes → ReadReturn
  read_pause read_abort : ReadReturn

-- What the pipe of the response body answers, and what `write` returns.
pub data WritePoll : Type 0 where
  write_pending write_failed : WritePoll
  written : ℕ → WritePoll

pub data WriteReturn : Type 0 where
  write_pause : WriteReturn
  accepted : ℕ → WriteReturn

pub data SeekFrom : Type 0 where
  from_start from_end from_current : ℕ → SeekFrom

abbrev pub crlf : Bytes
crlf = 13 ∷ 10 ∷ []

-- `ResponseBodyReader::poll_read`, of what the pipe answers.
unfoldable pub poll_response : Option Completion → ReadPoll → ReadPoll
poll_response result pending = pending
poll_response result (io_failed error) = io_failed error
poll_response result (ready (c ∷ cs)) = ready (c ∷ cs)
poll_response (some succeeded) (ready []) = ready []
poll_response (some (failed kind)) (ready []) = io_failed (to_io kind)
poll_response none (ready []) = io_failed (plain_io connection_aborted)

module _ (texts : HeaderText) (h : HeaderMap) where
  unfoldable pub new_handler : AsyncBody → RequestHandler h
  new_handler body = record {
    sender = true;
    canceled = false;
    sent = none;
    result = none;
    request_body = body;
    request_body_waker = false;
    response_status_code = none;
    response_version = none;
    response_headers = h.new;
    response_body_waker = false;
    response_trailer_writer = new_writer h;
  }

  unfoldable pub init : RequestHandler h → RequestHandler h
  init s = record s { request_body_waker = true; response_body_waker = true }

  abbrev pub is_future_canceled : RequestHandler h → Bool
  is_future_canceled s = s.sender && s.canceled

  unfoldable pub build_response : RequestHandler h → Built h
  build_response s = record {
    status = s.response_status_code;
    version = s.response_version;
    headers = s.response_headers;
    request_body = s.request_body;
  }

  -- The sender is taken; a message to a receiver that is gone is lost.
  offer : Outcome ErrorKind (Built h) → RequestHandler h → RequestHandler h
  offer message s = record s { sender = false; sent = if s.canceled then s.sent else some message }

  -- `build_response` drains the headers and takes the request body.
  send_result : Option Completion → RequestHandler h → RequestHandler h
  send_result (some (failed kind)) s = offer (err kind) s
  send_result (some succeeded) s =
      offer (ok (build_response s)) (record s { response_headers = h.new; request_body = empty })
  send_result none s =
      offer (ok (build_response s)) (record s { response_headers = h.new; request_body = empty })

  unfoldable pub complete_response_future : RequestHandler h → RequestHandler h
  unfolding offer send_result build_response
  complete_response_future s = if s.sender then send_result s.result s else s

  unfoldable pub set_result : Completion → RequestHandler h → RequestHandler h
  set_result result s = complete_response_future (record s {
    result = set_once s.result result;
    response_trailer_writer = flush s.response_trailer_writer;
  })

  -- What the response future has: nothing yet, the message, or the error of a closed channel.
  unfoldable pub response_future : RequestHandler h → Option (Outcome ErrorKind (Built h))
  response_future s = elim s.sent [
    | some message ↦ some message
    | none ↦ if s.sender then none else some (err unknown)
  ]

  response_line : Bytes → RequestHandler h → Bool × RequestHandler h
  response_line line s = elim (parse_status_line texts line) [
    | some (version, status) ↦ (
      true,
      record s {
        response_version = some version;
        response_status_code = some status;
        response_headers = h.new;
      },
    )
    | none ↦ elim (parse_header texts line) [
      | some (name, value) ↦
          (true, record s { response_headers = h.append name value s.response_headers })
      | none ↦ (bytes_eq line crlf, s)
    ]
  ]

  trailer_line : Option h.Map → Bytes → RequestHandler h → Bool × RequestHandler h
  trailer_line none line s = response_line line s
  trailer_line (some headers) line s = elim (parse_header texts line) [
    | some (name, value) ↦ (
      true,
      record s {
        response_trailer_writer = record s.response_trailer_writer {
          headers = some (h.append name value headers);
        };
      },
    )
    | none ↦ response_line line s
  ]

  -- `Handler::header`
  unfoldable pub header : Bytes → RequestHandler h → Bool × RequestHandler h
  unfolding response_line trailer_line
  header line s =
      if is_future_canceled s
      then (false, s)
      else if s.sender
      then response_line line s
      else trailer_line s.response_trailer_writer.headers line s

  read_polled : ReadPoll × AsyncBody → RequestHandler h → ReadReturn × RequestHandler h
  read_polled (pending, body) s = (read_pause, record s { request_body = body })
  read_polled (ready bytes, body) s = (read_bytes bytes, record s { request_body = body })
  read_polled (io_failed error, body) s =
      (read_abort, set_result (failed (from_io error)) (record s { request_body = body }))

  -- `Handler::read`, into a buffer of `size` bytes; `stream` is the answer of a reader.
  unfoldable pub read : ℕ → ReadPoll → RequestHandler h → ReadReturn × RequestHandler h
  unfolding read_polled
  read size stream s =
      if is_future_canceled s
      then (read_abort, s)
      else if s.request_body_waker
      then read_polled (poll_read size stream s.request_body) s
      else (read_abort, s)

  -- `Handler::seek`
  unfoldable pub seek : SeekFrom → RequestHandler h → Bool × RequestHandler h
  seek (from_start zero) s =
      let (done, body) = reset s.request_body in (done, record s { request_body = body })
  seek whence s = (false, s)

  write_polled : WritePoll → WriteReturn
  write_polled write_pending = write_pause
  write_polled (written len) = accepted len
  write_polled write_failed = accepted 0

  -- `Handler::write`
  unfoldable pub write : WritePoll → RequestHandler h → WriteReturn × RequestHandler h
  unfolding write_polled
  write poll s =
      let s' = complete_response_future s in
      (if s'.response_body_waker then write_polled poll else accepted 0, s')

  -- What can happen to a handler: the calls of curl, the end of the transfer, and the loss of the
  -- receiver.
  pub data Event : Type 0 where
    on_header : Bytes → Event
    on_read : ℕ → ReadPoll → Event
    on_seek : SeekFrom → Event
    on_write : WritePoll → Event
    on_result : Completion → Event
    on_cancel : Event

  unfoldable pub step : Event → RequestHandler h → RequestHandler h
  step (on_header line) s = (header line s).1
  step (on_read size stream) s = (read size stream s).1
  step (on_seek whence) s = (seek whence s).1
  step (on_write poll) s = (write poll s).1
  step (on_result result) s = set_result result s
  step on_cancel s = record s { canceled = true }

  unfoldable pub run : List Event → RequestHandler h → RequestHandler h
  run [] s = s
  run (event ∷ more) s = run more (step event s)
