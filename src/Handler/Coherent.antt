-- ===== src/Handler/Coherent.antt =====
-- The handler of src/handler.rs over any sequence of calls: how the parts
-- of the state go together.
use isahc.Prelude.{
  ℕ, zero, ◌≡◌, Bool, true, false, not, ◌&&◌, Option, none, some, List, [], ◌∷◌, arith,
}
use isahc.Prelude.Bytes.{Bytes}
use isahc.Http.{HeaderMap, HeaderText}
use isahc.Error.{from_io}
use isahc.Body.{AsyncBody, ReadPoll, pending, ready, io_failed, poll_read}
use isahc.Trailer.{flush_impl, new_writer}
use isahc.Handler.{
  Completion, failed, RequestHandler, complete_response_future, set_result, header, response_line,
  trailer_line, read, read_polled, seek, from_start, SeekFrom, write, Event, on_header, on_read,
  on_seek, on_write, on_result, on_cancel, step, run, new_handler,
}

abbrev pub is_some {ℓ} : {A : Type ℓ} → Option A → Bool
is_some none = false
is_some (some a) = true

module _ (texts : HeaderText) (h : HeaderMap) where
  -- While the sender is there, nothing has been sent and the transfer has not ended; the trailer is
  -- ready exactly when it has been flushed, which it has when the transfer has ended.
  pub record IsCoherent (s : RequestHandler h) : Type 0 where
    pub unsent : (s.sender && is_some s.sent) ≡ false
    pub running : (s.sender && is_some s.result) ≡ false
    pub one_place :
        is_some s.response_trailer_writer.shared ≡ not (is_some s.response_trailer_writer.headers)
    pub flushed : (is_some s.result && is_some s.response_trailer_writer.headers) ≡ false

  new_handler-IsCoherent : (body : AsyncBody) → IsCoherent (new_handler texts h body)
  unfolding new_handler new_writer
  new_handler-IsCoherent body = ground arith

  complete-IsCoherent :
      (s : RequestHandler h)
      → (s.sender && is_some s.sent) ≡ false
      → is_some s.response_trailer_writer.shared ≡ not (is_some s.response_trailer_writer.headers)
      → (is_some s.result && is_some s.response_trailer_writer.headers) ≡ false
      → IsCoherent (complete_response_future texts h s)
  unfolding complete_response_future
  complete-IsCoherent s unsent one_place flushed = ground arith

  set_result-IsCoherent :
      (r : Completion) (s : RequestHandler h) → IsCoherent s → IsCoherent (set_result texts h r s)
  unfolding set_result flush_impl
  set_result-IsCoherent r s c = complete-IsCoherent _ (ground arith) (ground arith) (ground arith)

  response_line-IsCoherent :
      (line : Bytes) (s : RequestHandler h)
      → IsCoherent s
      → IsCoherent (response_line texts h line s).1
  unfolding response_line
  response_line-IsCoherent line s c = ground arith

  trailer_line-IsCoherent :
      (line : Bytes) (s : RequestHandler h)
      → IsCoherent s
      → IsCoherent (trailer_line texts h s.response_trailer_writer.headers line s).1
  unfolding trailer_line
  trailer_line-IsCoherent line s c = ground (arith, response_line-IsCoherent line s c)

  header-IsCoherent :
      (line : Bytes) (s : RequestHandler h) → IsCoherent s → IsCoherent (header texts h line s).1
  unfolding header
  header-IsCoherent line s c =
      ground (arith, response_line-IsCoherent line s c, trailer_line-IsCoherent line s c)

  read_polled-IsCoherent :
      (polled : ReadPoll × AsyncBody) (s : RequestHandler h)
      → IsCoherent s
      → IsCoherent (read_polled texts h polled s).1
  unfolding read_polled
  read_polled-IsCoherent (pending, body) s c = ground arith
  read_polled-IsCoherent (ready bytes, body) s c = ground arith
  read_polled-IsCoherent (io_failed e, body) s c =
      set_result-IsCoherent (failed (from_io e)) (record s { request_body = body })
        (record {
          unsent = c.unsent;
          running = c.running;
          one_place = c.one_place;
          flushed = c.flushed;
        })

  seek-IsCoherent :
      (whence : SeekFrom) (s : RequestHandler h)
      → IsCoherent s
      → IsCoherent (seek texts h whence s).1
  unfolding seek
  seek-IsCoherent (from_start zero) s c = ground arith
  seek-IsCoherent _ s c = c

  read-IsCoherent :
      (size : ℕ) (stream : ReadPoll) (s : RequestHandler h)
      → IsCoherent s
      → IsCoherent (read texts h size stream s).1
  unfolding read
  read-IsCoherent size stream s c =
      ground (arith, read_polled-IsCoherent (poll_read size stream s.request_body) s c)

  step-IsCoherent :
      (event : Event texts h) (s : RequestHandler h)
      → IsCoherent s
      → IsCoherent (step texts h event s)
  unfolding step write
  step-IsCoherent (on_header line) s c = header-IsCoherent line s c
  step-IsCoherent (on_read size stream) s c = read-IsCoherent size stream s c
  step-IsCoherent (on_seek whence) s c = seek-IsCoherent whence s c
  step-IsCoherent (on_write poll) s c = complete-IsCoherent s c.unsent c.one_place c.flushed
  step-IsCoherent (on_result result) s c = set_result-IsCoherent result s c
  step-IsCoherent on_cancel s c = ground arith

  run-IsCoherent :
      (events : List (Event texts h)) (s : RequestHandler h)
      → IsCoherent s
      → IsCoherent (run texts h events s)
  unfolding run
  run-IsCoherent [] s c = c
  run-IsCoherent (event ∷ more) s c =
      run-IsCoherent more (step texts h event s) (step-IsCoherent event s c)

  -- A state that is reached from a new handler by any calls is coherent.
  pub new-run-IsCoherent :
      (body : AsyncBody) (events : List (Event texts h))
      → IsCoherent (run texts h events (new_handler texts h body))
  new-run-IsCoherent body events =
      run-IsCoherent events (new_handler texts h body) (new_handler-IsCoherent body)
