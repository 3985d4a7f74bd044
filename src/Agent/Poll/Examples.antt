-- ===== src/Agent/Poll/Examples.antt =====
-- Two turns of the main loop of src/agent/mod.rs, on the poller of the selector's examples. Curl asks
-- for the socket 3 and a timeout; the second wait reports the socket, and curl asks for the socket 5 and
-- takes that back.
use isahc.Prelude.{◌≡◌, refl, true, false, none, some, List, [], ◌∷◌, arith}
use isahc.Prelude.Outcome.{Outcome, ok}
use isahc.Agent.Selector.{
  Fault, new_selector, register, deregister, poll, before_wait, rearm, rearm_all, retry_all,
  poller_add, poller_modify,
}
use isahc.Agent.Selector.Examples.{oneshot, oneshot-PollerLaws}
use isahc.Agent.Poll.{
  SocketEvents, Updates, socket_function, timer_function, Round, Polling, new_polling,
  insert_update, timer_is_expired, get_remaining, poll_timeout, hear, hear_all, apply_update,
  apply_updates, select, expire, apply_pending, agent_poll, run_polls,
}
use isahc.Agent.Poll.Updates.{DrainLaws}
use isahc.Agent.Poll.Follows.{last_word, run_polls-armed}

abbrev in_order : Updates → Updates
in_order updates = updates

in_order-DrainLaws : DrainLaws in_order
in_order-DrainLaws = record { distinct = λ updates d. d; same = λ updates d j. refl }

abbrev reads : SocketEvents
reads = record { input = true; output = false; input_and_output = false; remove = false }

abbrev stops : SocketEvents
stops = record { input = false; output = false; input_and_output = false; remove = true }

abbrev turns : List Round
turns =
    (record {
      before = socket_function 3 reads ∷ timer_function 100 (some 10) ∷ [];
      now = 105;
      in_action = λ events. [];
      in_timeout = [];
    })
    ∷ (record {
      before = [];
      now = 110;
      in_action = λ events. socket_function 5 reads ∷ [];
      in_timeout = socket_function 5 stops ∷ [];
    })
    ∷ []

abbrev or_new : Outcome Fault (Polling oneshot) → Polling oneshot
or_new (ok s) = s
or_new _ = new_polling oneshot (λ k. none)

abbrev later : Polling oneshot
later = or_new (run_polls oneshot in_order turns (new_polling oneshot (λ k. none)))

-- The timer has 5 milliseconds left at the first wait, and has been stopped after the second.
waits :
    (poll_timeout 105 (some 110) ≡ 5)
    × (poll_timeout 105 none ≡ 1000)
    × (poll_timeout 0 (some 4000) ≡ 1000)
unfolding poll_timeout get_remaining
waits = (refl, refl, refl)

stopped : (later.timer ≡ none) × (later.selector.sockets 5 ≡ none)
unfolding run_polls agent_poll select expire apply_pending apply_updates apply_update hear_all hear
    insert_update timer_is_expired poll_timeout get_remaining new_selector register deregister poll
    before_wait rearm rearm_all retry_all poller_add poller_modify
stopped = (refl, refl)

run_polls-armed_example : (before_wait oneshot later.selector).1.poller 3 ≡ some (true, false)
unfolding run_polls agent_poll select expire apply_pending apply_updates apply_update hear_all hear
    insert_update timer_is_expired poll_timeout get_remaining new_selector register deregister poll
    before_wait rearm rearm_all retry_all poller_add poller_modify last_word
run_polls-armed_example =
    run_polls-armed oneshot oneshot-PollerLaws in_order in_order-DrainLaws turns (λ k. none) later 3
      (true, false) (omega arith) refl refl refl refl
