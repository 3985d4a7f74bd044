-- ===== src/Trailer/Waiting.antt =====
-- `Trailer::wait` of src/trailer.rs beside `TrailerWriter::flush_impl`, as interleaved steps: one
-- waiting thread and the writer. The other waiters do not change what either of them sees. A listener
-- is woken by each notification that comes after it was made (`event_listener`).
use isahc.Prelude.{◌≡◌, refl, Bool, true, false, arith, if◌then◌else◌}

-- Where the waiter stands: before each test of the cell, before it makes a listener, blocked on the
-- listener, or returned.
pub data Place : Type 0 where
  fast_path make_listener double_check blocked last_check returned : Place

-- The writer: before it sets the cell, before it notifies, or done.
pub data Writer : Type 0 where
  holding stored notified : Writer

pub record State : Type 0 where
  pub place : Place
  pub woken : Bool
  pub writer : Writer

abbrev pub start : State
start = record { place = fast_path; woken = false; writer = holding }

-- Is the cell set?
abbrev pub is_set : Writer → Bool
is_set holding = false
is_set _ = true

-- Does the waiter have a listener?
abbrev pub has_listener : Place → Bool
has_listener double_check = true
has_listener blocked = true
has_listener _ = false

wait_at : Place → State → State
wait_at fast_path s = record s {
  place = if is_set s.writer then returned else make_listener;
  woken = false;
}
wait_at make_listener s = record s { place = double_check; woken = false }
wait_at double_check s = record s { place = if is_set s.writer then returned else blocked }
wait_at blocked s = record s { place = if s.woken then last_check else blocked }
wait_at last_check s = record s { place = if is_set s.writer then returned else fast_path }
wait_at returned s = s

-- The next step of the loop of `Trailer::wait`; a blocked waiter that is not woken stays.
unfoldable pub wait_step : State → State
unfolding wait_at
wait_step s = wait_at s.place s

flush_at : Writer → State → State
flush_at holding s = record s { writer = stored }
flush_at stored s = record s {
  writer = notified;
  woken = if has_listener s.place then true else s.woken;
}
flush_at notified s = s

-- The next step of `flush_impl`.
unfoldable pub flush_step : State → State
unfolding flush_at
flush_step s = flush_at s.writer s

pub data Reach : State → Type 0 where
  here : Reach start
  waits : {s : State} → Reach s → Reach (wait_step s)
  flushes : {s : State} → Reach s → Reach (flush_step s)

-- A waiter that is blocked behind the notification has been woken, and one that has returned has
-- seen the cell set.
is_alive : Place → Bool → Writer → Bool
is_alive place woken writer = elim place [
  | blocked ↦ elim writer [ notified ↦ woken | _ ↦ true ]
  | returned ↦ is_set writer
  | _ ↦ true
]

abbrev IsAlive : State → Type 0
IsAlive s = is_alive s.place s.woken s.writer ≡ true

wait_step-IsAlive : (s : State) → IsAlive s → IsAlive (wait_step s)
unfolding wait_step is_alive
wait_step-IsAlive s h = ground arith

flush_step-IsAlive : (s : State) → IsAlive s → IsAlive (flush_step s)
unfolding flush_step is_alive
flush_step-IsAlive s h = ground arith

Reach-IsAlive : {s : State} → Reach s → IsAlive s
Reach-IsAlive here = unfold is_alive in refl
Reach-IsAlive (waits {s = s} r) = wait_step-IsAlive s (Reach-IsAlive r)
Reach-IsAlive (flushes {s = s} r) = flush_step-IsAlive s (Reach-IsAlive r)

-- No wake-up is lost: in whatever order the waiter and the writer took their steps before, once the
-- writer has notified, the waiter returns after two more steps of its own.
pub wait-returns :
    (s : State) → Reach s → s.writer ≡ notified → (wait_step (wait_step s)).place ≡ returned
unfolding wait_step is_alive
wait-returns s r n = ground (arith, Reach-IsAlive r)

-- A waiter that has returned has seen the headers: it never returns before the cell is set.
pub returned-is_set : (s : State) → Reach s → s.place ≡ returned → is_set s.writer ≡ true
unfolding is_alive
returned-is_set s r e = ground (arith, Reach-IsAlive r)
