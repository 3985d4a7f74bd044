-- ===== src/Agent/Loop/Examples.antt =====
-- A run on which the theorem about src/agent/mod.rs is applied: one request ends, one is dropped when
-- the loop closes, and one comes too late.
use isahc.Prelude.{◌≡◌, refl, ◌⊎◌, false, some, List, [], ◌∷◌, ◌++◌, All, length, arith}
use isahc.Prelude.Has.{Has}
use isahc.Error.{timeout}
use isahc.Prelude.Bytes.{codes}
use isahc.Prelude.Outcome.{Outcome, ok, err, Infallible}
use isahc.Http.Assoc.{assoc, ascii_texts}
use isahc.Body.{buffer}
use isahc.Trailer.{new_writer}
use isahc.Handler.{
  RequestHandler, succeeded, failed, new_handler, init, on_write, written, response_future,
}
use isahc.Handler.Coherent.{IsCoherent}
use isahc.Agent.Loop.{
  close, execute, Agent, Turn, received, called, completed, run_agent, run_turns, turn,
  handle_message, begin_request, complete_request, remove, shut_down, call_back, new_agent,
  unpause_read,
}
use isahc.Agent.Loop.Messages.{
  Queue, blocks, returns, poll_messages, HasReturned, IsBlocked, poll_messages-cases,
}
use isahc.Agent.Loop.Answers.{IsAnswered}
use isahc.Agent.Loop.Delivers.{run_agent-delivers}

abbrev upload : RequestHandler assoc
upload = new_handler ascii_texts assoc (buffer (codes "hi") 0)

abbrev turns : List (Turn ascii_texts assoc)
turns =
    received 0 (execute upload)
    ∷ received 1 (execute upload)
    ∷ called 0 (on_write (written 1))
    ∷ completed 0 succeeded
    ∷ received 0 close
    ∷ received 0 (execute upload)
    ∷ []

abbrev handlers_of : Outcome Infallible (List (RequestHandler assoc)) → List (RequestHandler assoc)
handlers_of (ok handlers) = handlers
handlers_of _ = []

abbrev handlers : List (RequestHandler assoc)
handlers = handlers_of (run_agent ascii_texts assoc turns)

both_ended : length handlers ≡ 2
unfolding run_agent run_turns turn handle_message begin_request complete_request remove shut_down
    call_back
both_ended = refl

-- The second message closes the agent, and the third is left.
abbrev queue : Queue assoc
queue = (0, execute upload) ∷ (1, close) ∷ (1, execute upload) ∷ []

taken :
    (poll_messages ascii_texts assoc ((0, execute upload) ∷ []) (new_agent assoc)
      ≡ returns (begin_request ascii_texts assoc 0 upload (new_agent assoc)) [])
    × (poll_messages ascii_texts assoc ((0, unpause_read 7) ∷ []) (new_agent assoc)
        ≡ blocks (new_agent assoc))
unfolding poll_messages handle_message begin_request
taken = (refl, refl)

poll_messages-cases_example :
    HasReturned ascii_texts assoc queue (new_agent assoc)
    ⊎ IsBlocked ascii_texts assoc queue (new_agent assoc)
poll_messages-cases_example = poll_messages-cases ascii_texts assoc queue (new_agent assoc)

-- The first request is told that its transfer has failed, and the second is dropped by the loop.
abbrev begin_two : List (Turn ascii_texts assoc)
begin_two = received 0 (execute upload) ∷ received 1 (execute upload) ∷ []

abbrev begun_two : Agent assoc
begun_two = record {
  requests = (1, init ascii_texts assoc upload) ∷ (0, init ascii_texts assoc upload) ∷ [];
  close_requested = false;
  ended = [];
}

begun_two-is : run_turns ascii_texts assoc begin_two (new_agent assoc) ≡ ok begun_two
unfolding run_turns turn handle_message begin_request
begun_two-is = refl

upload-IsCoherent : IsCoherent ascii_texts assoc (init ascii_texts assoc upload)
unfolding init new_handler new_writer
upload-IsCoherent = ground arith

abbrev told : List (RequestHandler assoc)
told = handlers_of (
    run_agent ascii_texts assoc (begin_two ++ completed 0 (failed timeout) ∷ received 0 close ∷ []))

run_agent-delivers_example :
    ((done : RequestHandler assoc) × Has done told
      × (response_future ascii_texts assoc done ≡ some (err timeout)))
    × All (IsAnswered ascii_texts assoc) told
    × (length told ≡ 2)
unfolding run_agent run_turns turn handle_message begin_request complete_request remove shut_down
    call_back init new_handler
run_agent-delivers_example =
    run_agent-delivers ascii_texts assoc begin_two (received 0 close ∷ []) 0 (failed timeout)
      begun_two (init ascii_texts assoc upload) ((1, init ascii_texts assoc upload) ∷ []) told refl
      refl upload-IsCoherent refl refl
