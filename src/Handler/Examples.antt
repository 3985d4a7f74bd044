-- ===== src/Handler/Examples.antt =====
-- Runs of a handler on which the theorems about src/handler.rs are applied.
use isahc.Prelude.{◌≡◌, refl, true, none, some, List, [], ◌∷◌, ◌++◌}
use isahc.Prelude.Bytes.{Bytes, codes, bytes_eq}
use isahc.Prelude.Outcome.{Outcome, ok}
use isahc.Http.{http_11}
use isahc.Http.Assoc.{assoc, assoc-HeaderLaws, ascii_texts}
use isahc.Error.{ErrorKind, plain_io, timed_out, from_io, unknown}
use isahc.Body.{buffer, reader, io_failed, pending}
use isahc.Cookies.Syntax.{split_at_first}
use isahc.Parsing.{
  parse_header, parse_status_line, split_whitespace, find_text, parse_version, trim_start, trim_end,
}
use isahc.Handler.{
  failed, RequestHandler, Built, crlf, new_handler, init, set_result, read, read_bytes, read_abort,
  write, written, response_future, build_response, Event, on_header, on_write, on_cancel, on_seek,
  from_start, on_result, run,
}
use isahc.Trailer.{new_writer}
use isahc.Handler.Once.{response_future-answers}
use isahc.Handler.Lines.{Field, lines_of, feed, feed-response}
use isahc.Handler.Bodies.{Fails, read-Fails, read-write}

abbrev status_line : Bytes
status_line = codes "HTTP/1.1 200 OK" ++ crlf

abbrev server_line : Bytes
server_line = codes "Server: a" ++ crlf

abbrev fields : List Field
fields = (server_line, codes "server", codes "a") ∷ []

abbrev started : RequestHandler assoc
started = new_handler ascii_texts assoc (buffer (codes "hello") 0)

abbrev upload : RequestHandler assoc
upload = init ascii_texts assoc (new_handler ascii_texts assoc (reader 7 none))

abbrev before : List (Event ascii_texts assoc)
before = on_header status_line ∷ on_header server_line ∷ on_write (written 1) ∷ []

response_future-answers_example :
    (message : Outcome ErrorKind (Built assoc)) × (response_future ascii_texts assoc
        (set_result ascii_texts assoc (failed unknown) (run ascii_texts assoc before started))
      ≡ some message)
    × (response_future ascii_texts assoc (
          run ascii_texts assoc
            (on_cancel ∷ [])
            (set_result ascii_texts assoc (failed unknown) (run ascii_texts assoc before started)))
        ≡ some message)
response_future-answers_example =
    response_future-answers ascii_texts assoc (buffer (codes "hello") 0) before (on_cancel ∷ [])
      (failed unknown)

feed-response_example :
    (s' : RequestHandler assoc) × (feed ascii_texts assoc
        (status_line ∷ (lines_of fields ++ crlf ∷ []))
        started
      ≡ (true, s'))
    × (s'.sender ≡ true)
    × (s'.response_status_code ≡ some 200)
    × (s'.response_version ≡ some http_11)
    × (assoc.get_all (codes "server") s'.response_headers ≡ codes "a" ∷ [])
unfolding new_handler parse_status_line split_whitespace find_text parse_version bytes_eq
    parse_header split_at_first trim_start trim_end
feed-response_example =
    feed-response ascii_texts assoc assoc-HeaderLaws status_line http_11 200 fields (codes "server")
      started refl refl refl ((refl, refl), _)

read-Fails_example :
    ((read ascii_texts assoc 10 (io_failed (plain_io timed_out)) upload).0 ≡ read_abort)
    × Fails ascii_texts assoc
        (from_io (plain_io timed_out))
        (read ascii_texts assoc 10 (io_failed (plain_io timed_out)) upload).1
        before
unfolding init new_handler new_writer
read-Fails_example =
    read-Fails ascii_texts assoc 10 7 none (plain_io timed_out) upload before
      (record { unsent = refl; running = refl; one_place = refl; flushed = refl }) refl refl refl
      refl

-- What curl calls after the first bytes.
abbrev interrupted : List (Event ascii_texts assoc)
interrupted = on_write (written 4) ∷ on_seek (from_start 0) ∷ on_result (failed unknown) ∷ []

read-write_example :
    (response_future ascii_texts assoc
        (run ascii_texts assoc interrupted (write ascii_texts assoc (written 1) upload).1)
      ≡ some (ok (build_response ascii_texts assoc upload)))
    × ((read ascii_texts assoc 10 pending
          (run ascii_texts assoc interrupted (write ascii_texts assoc (written 1) upload).1)).0
        ≡ read_bytes [])
unfolding init new_handler new_writer
read-write_example =
    read-write ascii_texts assoc (written 1) upload interrupted 10 pending refl refl refl refl
