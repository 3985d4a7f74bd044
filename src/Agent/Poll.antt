-- ===== src/Agent/Poll.antt =====
-- src/agent/timer.rs and `AgentContext::poll` of src/agent/mod.rs: what a turn of the main loop does
-- with the timeout that curl asks for and with what curl says about sockets. What curl's callbacks are
-- called with, and the order of a drained map, are parameters; calls into curl succeed here.
pub mod Updates
pub mod Follows
mod Examples
use isahc.Prelude.{
  ℕ, Bool, true, false, ◌||◌, Option, none, some, List, [], ◌∷◌, ◌==◌, if◌then◌else◌, leb,
  unwrap_or, ◌+◌, ◌-◌,
}
use isahc.Prelude.Outcome.{Outcome, ok, err, panic, ◌>>=◌}
use isahc.Agent.Selector.{
  Fault, Interest, SocketEvent, Poller, Selector, new_selector, register, deregister, poll,
}

-- `curl::multi::SocketEvents`, by the answers of its methods.
pub record SocketEvents : Type 0 where
  pub input : Bool
  pub output : Bool
  pub input_and_output : Bool
  pub remove : Bool

-- A map of the last word on each socket.
abbrev pub Updates : Type 0
Updates = List (ℕ × SocketEvents)

-- `HashMap::insert`
unfoldable pub insert_update : ℕ → SocketEvents → Updates → Updates
insert_update socket events [] = (socket, events) ∷ []
insert_update socket events ((k, e) ∷ more) =
    let rest = insert_update socket events more in
    if k == socket then (socket, events) ∷ more else (k, e) ∷ rest

-- `Timer` is the instant of its timeout, in milliseconds.
unfoldable pub timer_is_expired : ℕ → Option ℕ → Bool
timer_is_expired now none = false
timer_is_expired now (some timeout) = leb timeout now

-- `saturating_duration_since` is the subtraction of ℕ.
unfoldable pub get_remaining : ℕ → Option ℕ → Option ℕ
get_remaining now none = none
get_remaining now (some timeout) = some (timeout - now)

abbrev pub wait_timeout : ℕ
wait_timeout = 1000

unfoldable pub poll_timeout : ℕ → Option ℕ → ℕ
unfolding get_remaining
poll_timeout now timer = elim (get_remaining now timer) [
  | none ↦ wait_timeout
  | some t ↦ if leb t wait_timeout then t else wait_timeout
]

-- The calls that curl makes of the closures of `AgentContext::new`; that of the timer has the time of
-- the call and the timeout.
pub data CurlCall : Type 0 where
  socket_function : ℕ → SocketEvents → CurlCall
  timer_function : ℕ → Option ℕ → CurlCall

-- `heard` has all calls of curl, the latest first; the source does not keep them.
pub record Polling (p : Poller) : Type 0 where
  pub selector : Selector p
  pub timer : Option ℕ
  pub socket_updates : Updates
  pub heard : List CurlCall

-- One turn: the calls that curl makes before the wait, when the wait starts, and the calls that curl makes
-- when it is told of the events of the wait, and of its timeout.
pub record Round : Type 0 where
  pub before : List CurlCall
  pub now : ℕ
  pub in_action : List SocketEvent → List CurlCall
  pub in_timeout : List CurlCall

module _ (p : Poller) where
  abbrev pub new_polling : p.State → Polling p
  new_polling state = record {
    selector = new_selector p state;
    timer = none;
    socket_updates = [];
    heard = [];
  }

  timer_start : ℕ → Option ℕ → Option ℕ
  timer_start now none = none
  timer_start now (some timeout) = some (now + timeout)

  unfoldable pub hear : CurlCall → Polling p → Polling p
  unfolding timer_start
  hear (socket_function socket events) s = record s {
    socket_updates = insert_update socket events s.socket_updates;
    heard = socket_function socket events ∷ s.heard;
  }
  hear (timer_function now timeout) s = record s {
    timer = timer_start now timeout;
    heard = timer_function now timeout ∷ s.heard;
  }

  unfoldable pub hear_all : List CurlCall → Polling p → Polling p
  hear_all [] s = s
  hear_all (call ∷ more) s = hear_all more (hear call s)

  -- The loop over the drained updates; `?` leaves it at the first fault.
  unfoldable pub apply_update : ℕ → SocketEvents → Selector p → Option Fault × Selector p
  apply_update socket events s =
      if events.remove
      then deregister p socket s
      else register p socket
          (events.input || events.input_and_output, events.output || events.input_and_output) s

  unfoldable pub apply_updates : Updates → Selector p → Outcome Fault (Selector p)
  apply_updates [] s = ok s
  apply_updates ((socket, events) ∷ more) s =
      let (result, s') = apply_update socket events s in
      let rest = apply_updates more s' in elim result [ none ↦ rest | some fault ↦ err fault ]

  unfoldable pub select : Round → Polling p → Outcome Fault (Polling p)
  select t s =
      let (result, selector) = poll p (poll_timeout t.now s.timer) s.selector in
      let polled : Polling p = record s { selector = selector } in
      do
        active ← result
        ok (if active then hear_all (t.in_action selector.events) polled else polled)

  unfoldable pub expire : Round → Polling p → Polling p
  expire t s =
      if timer_is_expired t.now s.timer
      then hear_all t.in_timeout (record s { timer = none })
      else s

  module _ (drain : Updates → Updates) where
    unfoldable pub apply_pending : Polling p → Outcome Fault (Polling p)
    apply_pending s = do
      selector ← apply_updates (drain s.socket_updates) s.selector
      ok (record s { selector = selector; socket_updates = [] })

    -- `AgentContext::poll`, after the calls of curl that come before it.
    unfoldable pub agent_poll : Round → Polling p → Outcome Fault (Polling p)
    agent_poll t s = do s' ← select t (hear_all t.before s); apply_pending (expire t s')

    unfoldable pub run_polls : List Round → Polling p → Outcome Fault (Polling p)
    run_polls [] s = ok s
    run_polls (t ∷ more) s = do s' ← agent_poll t s; run_polls more s'
