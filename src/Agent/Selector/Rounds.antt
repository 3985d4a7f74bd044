-- ===== src/Agent/Selector/Rounds.antt =====
-- One call of `Selector::poll` of src/agent/selector.rs, and how the sockets are watched between calls.
use isahc.Prelude.{
  ℕ, ◌≡◌, refl, ap, ◌∙◌, ◌⊎◌, inl, inr, Bool, true, false, Option, none, List, [], arith,
  Bool-cases, Option-cases, ◌<◌, ◌+◌, ◌^◌,
}
use isahc.Prelude.Outcome.{ok, err}
use isahc.Agent.Selector.{
  Fault, SocketEvent, Poller, Selector, has, has_event, rearm_all, retry_bad, before_wait, poll,
  waited,
}
use isahc.Agent.Selector.Steps.{PollerLaws, IsArmed}
use isahc.Agent.Selector.Armed.{Pending}
use isahc.Agent.Selector.Loops.{rearm_all-IsArmed, rearm_all-bad, retry_all-IsArmed}
use isahc.Agent.Selector.Kept.{interest_of, IsTimed, before_wait-next, before_wait-Keeps}

module _ (p : Poller) (laws : PollerLaws p) where
  -- Between two calls, each socket is bad, armed, or had an event in the last wait and was not armed
  -- since.
  abbrev pub Watched : ℕ → Selector p → Type 0
  Watched j s = (has j s.bad_sockets ≡ true) ⊎ IsArmed p laws j s ⊎ Pending p laws j s.events s

  pub record IsWatched (s : Selector p) : Type 0 where
    pub watched : (j : ℕ) → Watched j s
    pub timed : IsTimed p laws s

  retry_bad-IsArmed :
      (j : ℕ) (s : Selector p)
      → (has j s.bad_sockets ≡ true) ⊎ IsArmed p laws j s
      → has j (retry_bad p s).bad_sockets ≡ false
      → IsArmed p laws j (retry_bad p s)
  unfolding retry_bad
  retry_bad-IsArmed j s before dropped =
      retry_all-IsArmed p laws s.bad_sockets j (record s { events = [] }) before dropped

  -- When the poller is asked, a socket that is not bad is armed.
  pub before_wait-IsArmed :
      (j : ℕ) (s : Selector p)
      → Watched j s
      → (before_wait p s).0 ≡ none
      → has j (before_wait p s).1.bad_sockets ≡ false
      → IsArmed p laws j (before_wait p s).1
  before_wait-IsArmed j s watched = elim (before_wait-next p laws s) [
    | inl (fine, same) ↦ rw same (λ ok dropped. retry_bad-IsArmed j _ (after watched fine) dropped)
    | inr (f, same) ↦ rw same (λ ok. ground arith)
  ]
    where
      after :
          Watched j s
          → (rearm_all p s.events s).0 ≡ none
          → (has j (rearm_all p s.events s).1.bad_sockets ≡ true)
            ⊎ IsArmed p laws j (rearm_all p s.events s).1
      after (inl bad) fine = inl (ap (λ b. has j b) (rearm_all-bad p laws s.events s) ∙ bad)
      after (inr rest) fine = inr (rearm_all-IsArmed p laws s.events j s rest fine)

  waited-IsWatched :
      (answer : Option Fault × List SocketEvent × p.State) (s : Selector p)
      → ((j : ℕ) → has_event j answer.1 ≡ false → p.armed j answer.2 ≡ p.armed j s.poller)
      → ((j : ℕ) → has j s.bad_sockets ≡ false → IsArmed p laws j s)
      → IsTimed p laws s
      → s.tick + 1 < 2 ^ 64
      → IsWatched (waited p answer s).1
  unfolding waited
  waited-IsWatched (result, events, state) s other armed timed room = record {
    watched = λ j. elim (Bool-cases (has j s.bad_sockets)) [
      | inl bad ↦ inl bad
      | inr good ↦ elim (Bool-cases (has_event j events)) [
        | inl found ↦ inr (inr (found, λ r at. ground (arith, timed j r at, room)))
        | inr quiet ↦ inr (inl (λ r at. other j quiet ∙ armed j good r at))
      ]
    ];
    timed = λ j r at. ground (arith, timed j r at, room);
  }

  poll-next :
      (timeout : ℕ) (s : Selector p)
      → ((before_wait p s).0 ≡ none)
          × (poll p timeout s
              ≡ waited p (p.wait timeout (before_wait p s).1.poller) (before_wait p s).1)
        ⊎ ((f : Fault) × (poll p timeout s ≡ (err f, (before_wait p s).1)))
  unfolding poll
  poll-next timeout s = elim (Option-cases (before_wait p s).0) [
    | inl e ↦ inl (e, rw (e, poll) refl)
    | inr (f, e) ↦ inr (f, rw (e, poll) refl)
  ]

  pub poll-IsWatched :
      (timeout : ℕ) (s : Selector p) (any_event : Bool)
      → IsWatched s
      → s.tick + 1 < 2 ^ 64
      → (poll p timeout s).0 ≡ ok any_event
      → IsWatched (poll p timeout s).1
  poll-IsWatched timeout s any_event w room = elim (poll-next timeout s) [
    | inl (fine, same) ↦
        let k = before_wait-Keeps p laws s in
        rw same (λ done.
          waited-IsWatched _ (before_wait p s).1 (λ j quiet. laws.wait-other j timeout _ quiet)
            (λ j good. before_wait-IsArmed j s (w.watched j) fine good) (k.timed w.timed)
            (ground (arith, k.tick, room)))
    | inr (f, same) ↦ rw same (λ done. ground arith)
  ]

  waited-sockets :
      (answer : Option Fault × List SocketEvent × p.State) (s s0 : Selector p)
      → s.tick ≡ s0.tick
      → s0.tick + 1 < 2 ^ 64
      → ((j : ℕ) → interest_of (s.sockets j) ≡ interest_of (s0.sockets j))
      → ((waited p answer s).1.tick ≡ s0.tick + 1)
        × ((j : ℕ) → interest_of ((waited p answer s).1.sockets j) ≡ interest_of (s0.sockets j))
  unfolding waited
  waited-sockets (result, events, state) s s0 tick room same = (ground (arith, tick, room), same)

  pub poll-sockets :
      (timeout : ℕ) (s : Selector p) (any_event : Bool)
      → s.tick + 1 < 2 ^ 64
      → (poll p timeout s).0 ≡ ok any_event
      → ((poll p timeout s).1.tick ≡ s.tick + 1)
        × ((j : ℕ) → interest_of ((poll p timeout s).1.sockets j) ≡ interest_of (s.sockets j))
  poll-sockets timeout s any_event room = elim (poll-next timeout s) [
    | inl (fine, same) ↦
        let k = before_wait-Keeps p laws s in
        rw same (λ done. waited-sockets _ (before_wait p s).1 s k.tick room k.interest)
    | inr (f, same) ↦ rw same (λ done. ground arith)
  ]
