-- ===== src/Trailer/Examples.antt =====
-- An interleaving on which the theorems about src/trailer.rs are applied.
use isahc.Prelude.{◌≡◌, refl}
use isahc.Trailer.Waiting.{
  State, start, wait_step, flush_step, Reach, here, waits, flushes, returned, wait-returns,
}

-- The waiter makes its listener, the writer sets the cell and notifies, the waiter looks again.
abbrev raced : State
raced = flush_step (flush_step (wait_step (wait_step start)))

raced-Reach : Reach raced
raced-Reach = flushes (flushes (waits (waits here)))

wait-returns_example : (wait_step (wait_step raced)).place ≡ returned
unfolding wait_step flush_step
wait-returns_example = wait-returns raced raced-Reach refl
