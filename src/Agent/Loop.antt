-- ===== src/Agent/Loop.antt =====
-- src/agent/mod.rs: what the agent thread does with requests, between the messages of its handles and
-- those of curl. Curl and the slab are not modelled: which key is vacant, and when curl calls a handler
-- back or reports a transfer, are parts of a run. `ended` keeps the handlers that the agent has dropped.
pub mod Answers
pub mod Messages
pub mod Delivers
mod Examples
use isahc.Prelude.{
  ℕ, Bool, true, false, not, Option, none, some, List, [], ◌∷◌, ◌++◌, map, ◌==◌, if◌then◌else◌,
}
use isahc.Prelude.Outcome.{Outcome, ok, panic, Infallible, ◌>>=◌}
use isahc.Http.{HeaderMap, HeaderText}
use isahc.Trailer.{flush}
use isahc.Handler.{RequestHandler, Completion, Event, init, set_result, step}

pub record Agent (h : HeaderMap) : Type 0 where
  pub requests : List (ℕ × RequestHandler h)
  pub close_requested : Bool
  pub ended : List (RequestHandler h)

pub data Message (h : HeaderMap) : Type 0 where
  close : Message h
  execute : RequestHandler h → Message h
  unpause_read unpause_write : ℕ → Message h

abbrev pub new_agent : (h : HeaderMap) → Agent h
new_agent h = record { requests = []; close_requested = false; ended = [] }

-- `Slab::remove`: the entry, and the slab without it.
unfoldable pub remove :
    {h : HeaderMap}
    → ℕ
    → List (ℕ × RequestHandler h)
    → Option (RequestHandler h × List (ℕ × RequestHandler h))
remove token [] = none
remove token ((id, handler) ∷ more) =
    let rest = remove token more in
    if id == token
    then some (handler, more)
    else elim rest [ none ↦ none | some (found, left) ↦ some (found, (id, handler) ∷ left) ]

module _ (texts : HeaderText) (h : HeaderMap) where
  -- `begin_request`, where curl takes the handle; `id` is the vacant key.
  unfoldable pub begin_request : ℕ → RequestHandler h → Agent h → Agent h
  begin_request id request s = record s { requests = (id, init texts h request) ∷ s.requests }

  -- Dropping a handler drops its sender, and its writer of trailers, which flushes.
  unfoldable pub drop_handler : RequestHandler h → RequestHandler h
  drop_handler handler = record handler {
    sender = false;
    response_trailer_writer = flush handler.response_trailer_writer;
  }

  -- `complete_request`; `remove` panics on a key that is not there.
  unfoldable pub complete_request : ℕ → Completion → Agent h → Outcome Infallible (Agent h)
  complete_request token result s = elim (remove token s.requests) [
    | none ↦ panic
    | some (handler, left) ↦ ok (record s {
      requests = left;
      ended = drop_handler (set_result texts h result handler) ∷ s.ended;
    })
  ]

  -- `handle_message`; what is unpaused shows in the calls that curl makes later.
  unfoldable pub handle_message : ℕ → Message h → Agent h → Agent h
  handle_message id close s = record s { close_requested = true }
  handle_message id (execute request) s = begin_request id request s
  handle_message id (unpause_read token) s = s
  handle_message id (unpause_write token) s = s

  -- Curl calls the handler with the given token.
  unfoldable pub call_back :
      ℕ → Event texts h → List (ℕ × RequestHandler h) → List (ℕ × RequestHandler h)
  call_back token event [] = []
  call_back token event ((id, handler) ∷ more) =
      let rest = call_back token event more in
      (id, if id == token then step texts h event handler else handler) ∷ rest

  -- What happens in the main loop: a message with the key that is vacant then, a call of curl, and the
  -- end of a transfer.
  pub data Turn : Type 0 where
    received : ℕ → Message h → Turn
    called : ℕ → Event texts h → Turn
    completed : ℕ → Completion → Turn

  unfoldable pub turn : Turn → Agent h → Outcome Infallible (Agent h)
  turn (received id message) s =
      if s.close_requested then ok s else ok (handle_message id message s)
  turn (called token event) s = ok (record s { requests = call_back token event s.requests })
  turn (completed token result) s = complete_request token result s

  unfoldable pub run_turns : List Turn → Agent h → Outcome Infallible (Agent h)
  run_turns [] s = ok s
  run_turns (t ∷ more) s = do s' ← turn t s; run_turns more s'

  -- The end of `run`: `requests.clear()`.
  unfoldable pub shut_down : Agent h → List (RequestHandler h)
  shut_down s = map (λ entry. drop_handler entry.1) s.requests ++ s.ended

  -- `AgentContext::run`
  unfoldable pub run_agent : List Turn → Outcome Infallible (List (RequestHandler h))
  run_agent turns = do s ← run_turns turns (new_agent h); ok (shut_down s)
