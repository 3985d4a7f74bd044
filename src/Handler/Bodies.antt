-- ===== src/Handler/Bodies.antt =====
-- The two bodies that pass the handler of src/handler.rs: the request body that curl reads, and the
-- response body whose reader asks how the transfer ended.
use isahc.Prelude.{
  ℕ, zero, ◌∷◌, sym, subst, ◌≡◌, refl, ap, ◌∙◌, ◌↔◌, true, false, Option, none, some, List, [],
  arith,
}
use isahc.Prelude.Outcome.{ok, err}
use isahc.Http.{HeaderMap, HeaderText}
use isahc.Error.{ErrorKind, IoError, from_io, to_io}
use isahc.Body.{ReadPoll, ready, io_failed, reader, poll_read, empty, reset}
use isahc.Handler.{
  Completion, succeeded, failed, RequestHandler, complete_response_future, build_response,
  set_result, read, read_polled, write, read_bytes, read_abort, WritePoll, poll_response,
  response_future, Event, run, on_header, on_read, on_seek, on_write, on_result, on_cancel, step,
  header, response_line, trailer_line, seek, SeekFrom, from_start,
}
use isahc.Handler.Coherent.{IsCoherent}
use isahc.Handler.Once.{run-Kept, run-result, response_future-Kept, set_result-sender}

-- The reader of a response body sees the end of it exactly if the pipe is at its end and the
-- transfer has succeeded.
pub poll_response_iff :
    (result : Option Completion) (polled : ReadPoll)
    → (poll_response result polled ≡ ready []) ↔ ((polled ≡ ready []) × (result ≡ some succeeded))
unfolding poll_response
poll_response_iff result polled = ground arith

module _ (texts : HeaderText) (h : HeaderMap) where
  set_result-failed :
      (kind : ErrorKind) (s : RequestHandler h)
      → IsCoherent texts h s
      → s.sender ≡ true
      → s.canceled ≡ false
      → (response_future texts h (set_result texts h (failed kind) s) ≡ some (err kind))
        × ((set_result texts h (failed kind) s).result ≡ some (failed kind))
  unfolding set_result complete_response_future response_future
  set_result-failed kind s c there kept = ground (arith, c.running)

  -- What a failed transfer tells: the response future has the error, and the response body ends with
  -- it, whatever is called later.
  abbrev pub Fails : ErrorKind → RequestHandler h → List (Event texts h) → Type 0
  Fails kind s after =
      (response_future texts h (run texts h after s) ≡ some (err kind))
      × (poll_response (run texts h after s).result (ready []) ≡ io_failed (to_io kind))

  failed-Fails :
      (kind : ErrorKind) (s : RequestHandler h) (after : List (Event texts h))
      → s.sender ≡ false
      → response_future texts h s ≡ some (err kind)
      → s.result ≡ some (failed kind)
      → Fails kind s after
  unfolding poll_response
  failed-Fails kind s after gone e f = (
    response_future-Kept texts h s _ gone (run-Kept texts h after s gone) ∙ e,
    ap (λ r. poll_response r (ready [])) (run-result texts h after s (failed kind) f),
  )

  read-failing :
      (size handle : ℕ) (len : Option ℕ) (error : IoError) (s : RequestHandler h)
      → s.sender ≡ true
      → s.canceled ≡ false
      → s.request_body_waker ≡ true
      → s.request_body ≡ reader handle len
      → read texts h size (io_failed error) s ≡ (
        read_abort,
        set_result texts h (failed (from_io error)) (record s { request_body = reader handle len }),
      )
  unfolding read read_polled poll_read
  read-failing size handle len error s there kept awake body = simp (there, kept, awake, body) refl

  -- When the reader of the request body fails before the response has been sent, curl is told to
  -- abort, and the error of the reader is what the response future and the response body give,
  -- whatever is called later.
  pub read-Fails :
      (size handle : ℕ) (len : Option ℕ) (error : IoError) (s : RequestHandler h)
      (after : List (Event texts h))
      → IsCoherent texts h s
      → s.sender ≡ true
      → s.canceled ≡ false
      → s.request_body_waker ≡ true
      → s.request_body ≡ reader handle len
      → ((read texts h size (io_failed error) s).0 ≡ read_abort)
        × Fails (from_io error) (read texts h size (io_failed error) s).1 after
  read-Fails size handle len error s after c there kept awake body =
      let s' : RequestHandler h = record s { request_body = reader handle len } in
      let c' : IsCoherent texts h s' = record {
        unsent = c.unsent;
        running = c.running;
        one_place = c.one_place;
        flushed = c.flushed;
      } in
      let (e, f) = set_result-failed (from_io error) s' c' there kept in
      rw (read-failing size handle len error s there kept awake body)
        (refl, failed-Fails (from_io error) _ after (set_result-sender texts h _ s') e f)

  -- The response has been sent, and the request body has gone with it.
  record IsDrained (s : RequestHandler h) : Type 0 where
    gone : s.sender ≡ false
    awake : s.request_body_waker ≡ true
    drained : s.request_body ≡ empty

  complete-IsDrained :
      (s : RequestHandler h) → IsDrained s → IsDrained (complete_response_future texts h s)
  unfolding complete_response_future
  complete-IsDrained s d = ground arith

  read-drained :
      (size : ℕ) (stream : ReadPoll) (s : RequestHandler h)
      → IsDrained s
      → read texts h size stream s ≡ (read_bytes [], record s { request_body = empty })
  unfolding read read_polled poll_read
  read-drained size stream s d = simp (d.gone, d.awake, d.drained) refl

  seek-IsDrained :
      (whence : SeekFrom) (s : RequestHandler h) → IsDrained s → IsDrained (seek texts h whence s).1
  unfolding seek reset
  seek-IsDrained (from_start zero) s d = record {
    gone = d.gone;
    awake = d.awake;
    drained = rw d.drained refl;
  }
  seek-IsDrained _ s d = d

  step-IsDrained :
      (event : Event texts h) (s : RequestHandler h)
      → IsDrained s
      → IsDrained (step texts h event s)
  unfolding step header response_line trailer_line write set_result
  step-IsDrained (on_header line) s d = ground arith
  step-IsDrained (on_read size stream) s d =
      subst (λ r. IsDrained r.1) (sym (read-drained size stream s d))
        (record { gone = d.gone; awake = d.awake; drained = refl })
  step-IsDrained (on_seek whence) s d = seek-IsDrained whence s d
  step-IsDrained (on_write poll) s d = complete-IsDrained s d
  step-IsDrained (on_result result) s d =
      complete-IsDrained _ (record { gone = d.gone; awake = d.awake; drained = d.drained })
  step-IsDrained on_cancel s d = record { gone = d.gone; awake = d.awake; drained = d.drained }

  run-IsDrained :
      (events : List (Event texts h)) (s : RequestHandler h)
      → IsDrained s
      → IsDrained (run texts h events s)
  unfolding run
  run-IsDrained [] s d = d
  run-IsDrained (event ∷ more) s d =
      run-IsDrained more (step texts h event s) (step-IsDrained event s d)

  written-IsDrained :
      (poll : WritePoll) (s : RequestHandler h)
      → s.sender ≡ true
      → s.canceled ≡ false
      → s.result ≡ none
      → s.request_body_waker ≡ true
      → IsDrained (write texts h poll s).1
        × (response_future texts h (write texts h poll s).1 ≡ some (ok (build_response texts h s)))
  unfolding write complete_response_future response_future build_response
  written-IsDrained poll s there kept going awake =
      (record { gone = ground arith; awake = ground arith; drained = ground arith }, ground arith)

  -- When the first bytes of a response body arrive before the transfer has ended, and the response
  -- future is still there, the response is sent, and the request body goes with it. Whatever is called
  -- later, the future keeps that response, and curl, which may still be sending the body, reads the
  -- end of an empty one.
  pub read-write :
      (poll : WritePoll) (s : RequestHandler h) (after : List (Event texts h)) (size : ℕ)
      (stream : ReadPoll)
      → s.sender ≡ true
      → s.canceled ≡ false
      → s.result ≡ none
      → s.request_body_waker ≡ true
      → (response_future texts h (run texts h after (write texts h poll s).1)
          ≡ some (ok (build_response texts h s)))
        × ((read texts h size stream (run texts h after (write texts h poll s).1)).0
            ≡ read_bytes [])
  read-write poll s after size stream there kept going awake =
      let (d, sent) = written-IsDrained poll s there kept going awake in
      let s' = (write texts h poll s).1 in
      (
        response_future-Kept texts h s' _ d.gone (run-Kept texts h after s' d.gone) ∙ sent,
        ap (λ r. r.0) (read-drained size stream (run texts h after s') (run-IsDrained after s' d)),
      )
