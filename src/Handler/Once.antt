-- ===== src/Handler/Once.antt =====
-- The handler of src/handler.rs over any sequence of calls: what it sends, and the result that
-- it keeps.
use isahc.Prelude.{zero, ◌≡◌, refl, ◌∙◌, inl, inr, false, some, List, [], ◌∷◌, arith, Option-cases}
use isahc.Prelude.Outcome.{Outcome, ok, err}
use isahc.Http.{HeaderMap, HeaderText}
use isahc.Error.{ErrorKind, unknown, from_io}
use isahc.Body.{AsyncBody, ReadPoll, pending, ready, io_failed, poll_read}
use isahc.Handler.{
  Completion, succeeded, failed, RequestHandler, complete_response_future, set_result, header,
  response_line, trailer_line, read, read_polled, seek, from_start, SeekFrom, write, Event,
  on_header, on_read, on_seek, on_write, on_result, on_cancel, step, run, new_handler,
  response_future, build_response, Built,
}

module _ (texts : HeaderText) (h : HeaderMap) where
  -- What a later state keeps of a state without a sender, or with a result.
  abbrev pub Kept : RequestHandler h → RequestHandler h → Type 0
  Kept s s' = (s'.sender ≡ false) × (s'.sent ≡ s.sent)

  complete-Kept :
      (s : RequestHandler h) → s.sender ≡ false → Kept s (complete_response_future texts h s)
  unfolding complete_response_future
  complete-Kept s gone = ground arith

  set_result-Kept :
      (r : Completion) (s : RequestHandler h) → s.sender ≡ false → Kept s (set_result texts h r s)
  unfolding set_result
  set_result-Kept r s gone = complete-Kept _ gone

  read_polled-Kept :
      (polled : ReadPoll × AsyncBody) (s : RequestHandler h)
      → s.sender ≡ false
      → Kept s (read_polled texts h polled s).1
  unfolding read_polled
  read_polled-Kept (pending, body) s gone = (gone, refl)
  read_polled-Kept (ready bytes, body) s gone = (gone, refl)
  read_polled-Kept (io_failed e, body) s gone =
      set_result-Kept (failed (from_io e)) (record s { request_body = body }) gone

  seek-Kept :
      (whence : SeekFrom) (s : RequestHandler h)
      → s.sender ≡ false
      → Kept s (seek texts h whence s).1
  unfolding seek
  seek-Kept (from_start zero) s gone = (gone, refl)
  seek-Kept _ s gone = (gone, refl)

  complete-result : (s : RequestHandler h) → (complete_response_future texts h s).result ≡ s.result
  unfolding complete_response_future
  complete-result s = ground arith

  set_result-result :
      (k r : Completion) (s : RequestHandler h)
      → s.result ≡ some r
      → (set_result texts h k s).result ≡ some r
  unfolding set_result
  set_result-result k r s e = complete-result _ ∙ ground arith

  read_polled-result :
      (polled : ReadPoll × AsyncBody) (s : RequestHandler h) (r : Completion)
      → s.result ≡ some r
      → (read_polled texts h polled s).1.result ≡ some r
  unfolding read_polled
  read_polled-result (pending, body) s r e = e
  read_polled-result (ready bytes, body) s r e = e
  read_polled-result (io_failed f, body) s r e =
      set_result-result (failed (from_io f)) r (record s { request_body = body }) e

  seek-result :
      (whence : SeekFrom) (s : RequestHandler h) → (seek texts h whence s).1.result ≡ s.result
  unfolding seek
  seek-result (from_start zero) s = refl
  seek-result _ s = refl

  step-Kept :
      (event : Event texts h) (s : RequestHandler h)
      → s.sender ≡ false
      → Kept s (step texts h event s)
  unfolding step header response_line trailer_line read write
  step-Kept (on_header line) s gone = ground arith
  step-Kept (on_read size stream) s gone =
      ground (arith, read_polled-Kept (poll_read size stream s.request_body) s gone)
  step-Kept (on_seek whence) s gone = seek-Kept whence s gone
  step-Kept (on_write poll) s gone = complete-Kept s gone
  step-Kept (on_result result) s gone = set_result-Kept result s gone
  step-Kept on_cancel s gone = (gone, refl)

  step-result :
      (event : Event texts h) (s : RequestHandler h) (r : Completion)
      → s.result ≡ some r
      → (step texts h event s).result ≡ some r
  unfolding step header response_line trailer_line read write
  step-result (on_header line) s r e = ground arith
  step-result (on_read size stream) s r e =
      ground (arith, read_polled-result (poll_read size stream s.request_body) s r e)
  step-result (on_seek whence) s r e = seek-result whence s ∙ e
  step-result (on_write poll) s r e = complete-result s ∙ e
  step-result (on_result result) s r e = set_result-result result r s e
  step-result on_cancel s r e = e

  pub run-Kept :
      (events : List (Event texts h)) (s : RequestHandler h)
      → s.sender ≡ false
      → Kept s (run texts h events s)
  unfolding run
  run-Kept [] s gone = (gone, refl)
  run-Kept (event ∷ more) s gone =
      let (gone', same) = step-Kept event s gone in
      let (gone'', rest) = run-Kept more (step texts h event s) gone' in (gone'', rest ∙ same)

  -- The first result stays, whatever is called after it.
  pub run-result :
      (events : List (Event texts h)) (s : RequestHandler h) (r : Completion)
      → s.result ≡ some r
      → (run texts h events s).result ≡ some r
  unfolding run
  run-result [] s r e = e
  run-result (event ∷ more) s r e =
      run-result more (step texts h event s) r (step-result event s r e)

  pub set_result-sender :
      (r : Completion) (s : RequestHandler h) → (set_result texts h r s).sender ≡ false
  unfolding set_result complete_response_future
  set_result-sender r s = ground arith

  -- The answer of a transfer that ends while its response has not been sent.
  abbrev pub answer : Completion → RequestHandler h → Outcome ErrorKind (Built h)
  answer succeeded s = ok (build_response texts h s)
  answer (failed kind) s = err kind

  pub response_future-Kept :
      (s s' : RequestHandler h)
      → s.sender ≡ false
      → Kept s s'
      → response_future texts h s' ≡ response_future texts h s
  unfolding response_future
  response_future-Kept s s' gone (gone', same) = ground arith

  response_future-some :
      (s : RequestHandler h)
      → s.sender ≡ false
      → (message : Outcome ErrorKind (Built h)) × (response_future texts h s ≡ some message)
  unfolding response_future
  response_future-some s gone = elim (Option-cases s.sent) [
    | inl e ↦ (err unknown, ground (arith, e))
    | inr (message, e) ↦ (message, ground (arith, e))
  ]

  -- When the transfer of a new handler ends, after any calls, the response future has an answer, and
  -- it has the same answer after any further calls.
  pub response_future-answers :
      (body : AsyncBody) (before after : List (Event texts h)) (r : Completion)
      → (message : Outcome ErrorKind (Built h)) × (response_future texts h
            (set_result texts h r (run texts h before (new_handler texts h body)))
          ≡ some message)
        × (response_future texts h (
              run texts h after
                (set_result texts h r (run texts h before (new_handler texts h body))))
            ≡ some message)
  response_future-answers body before after r =
      let s = set_result texts h r (run texts h before (new_handler texts h body)) in
      let gone : s.sender ≡ false = set_result-sender r _ in
      let (message, e) = response_future-some s gone in
      (message, e, response_future-Kept s _ gone (run-Kept after s gone) ∙ e)
