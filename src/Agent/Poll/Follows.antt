-- ===== src/Agent/Poll/Follows.antt =====
-- The turns of the main loop of src/agent/mod.rs, and the selector of src/agent/selector.rs between
-- them: what curl has said about sockets, and what the poller watches them for.
use isahc.Prelude.{
  ℕ, ◌≡◌, refl, ap, ◌∙◌, inl, inr, Bool, true, false, Option, none, some, List, [], ◌∷◌, ◌==◌,
  length, arith, subst, if◌then◌else◌, Bool-cases, ◌≤◌, ◌<◌, ◌+◌, ◌^◌,
}
use isahc.Prelude.Outcome.{ok, ok-eq, >>=-eq-ok}
use isahc.Agent.Selector.{Interest, Poller, has, before_wait, poll, new_selector}
use isahc.Agent.Selector.Steps.{PollerLaws}
use isahc.Agent.Selector.History.{
  IsFollowed, IsFollowed-armed, new_selector-IsFollowed, poll-IsFollowed,
}
use isahc.Agent.Poll.{
  SocketEvents, Updates, CurlCall, socket_function, timer_function, Polling, Round, new_polling,
  poll_timeout, hear, hear_all, select, expire, apply_pending, agent_poll, run_polls,
  timer_is_expired,
}
use isahc.Agent.Poll.Updates.{
  lookup, Distinct, DrainLaws, interest_asked, pending, lookup-insert, insert-Distinct,
  IsFollowed-wanted, apply_updates-IsFollowed,
}

-- What curl last wanted of a socket, of calls that have the latest first.
unfoldable pub last_word : ℕ → List CurlCall → Option Interest
last_word j [] = none
last_word j (socket_function k e ∷ more) = if k == j then interest_asked e else last_word j more
last_word j (timer_function now timeout ∷ more) = last_word j more

module _ (p : Poller) (laws : PollerLaws p) where
  -- The selector follows what is wanted, and what is not yet applied makes that the last words of curl.
  record IsTracked (s : Polling p) : Type 0 where
    wanted : ℕ → Option Interest
    distinct : Distinct s.socket_updates
    followed : IsFollowed p laws wanted s.selector
    last : (j : ℕ) → pending (lookup j s.socket_updates) (wanted j) ≡ last_word j s.heard

  -- Nothing waits to be applied, and the selector follows the last words of curl.
  record IsSettled (s : Polling p) : Type 0 where
    none_pending : s.socket_updates ≡ []
    follows : IsFollowed p laws (λ j. last_word j s.heard) s.selector

  pending-put :
      (b : Bool) (e : SocketEvents) (o : Option SocketEvents) (wanted word : Option Interest)
      → pending o wanted ≡ word
      → pending (if b then some e else o) wanted ≡ (if b then interest_asked e else word)
  pending-put true e o wanted word same = refl
  pending-put false e o wanted word same = same

  hear-IsTracked :
      (call : CurlCall) (s : Polling p)
      → IsTracked s
      → IsTracked (hear p call s) × ((hear p call s).selector ≡ s.selector)
  unfolding hear last_word
  hear-IsTracked (socket_function k e) s w = (
    record {
      wanted = w.wanted;
      distinct = insert-Distinct k e s.socket_updates w.distinct;
      followed = w.followed;
      last = λ j.
          ap (λ o. pending o (w.wanted j)) (lookup-insert j k e s.socket_updates)
          ∙ pending-put (k == j) e (lookup j s.socket_updates) (w.wanted j) _ (w.last j);
    },
    refl,
  )
  hear-IsTracked (timer_function now timeout) s w = (
    record { wanted = w.wanted; distinct = w.distinct; followed = w.followed; last = w.last },
    refl,
  )

  hear_all-IsTracked :
      (calls : List CurlCall) (s : Polling p)
      → IsTracked s
      → IsTracked (hear_all p calls s) × ((hear_all p calls s).selector ≡ s.selector)
  unfolding hear_all
  hear_all-IsTracked [] s w = (w, refl)
  hear_all-IsTracked (call ∷ more) s w =
      let (w', same) = hear-IsTracked call s w in
      let (w'', same') = hear_all-IsTracked more (hear p call s) w' in (w'', same' ∙ same)

  expire-IsTracked :
      (t : Round) (s : Polling p)
      → IsTracked s
      → IsTracked (expire p t s) × ((expire p t s).selector ≡ s.selector)
  unfolding expire
  expire-IsTracked t s w = elim (Bool-cases (timer_is_expired t.now s.timer)) [
    | inl due ↦ rw due (
        hear_all-IsTracked t.in_timeout (record s { timer = none })
          (record {
            wanted = w.wanted;
            distinct = w.distinct;
            followed = w.followed;
            last = w.last;
          }))
    | inr early ↦ rw early (w, refl)
  ]

  told-IsTracked :
      (active : Bool) (calls : List CurlCall) (s : Polling p)
      → IsTracked s
      → IsTracked (if active then hear_all p calls s else s)
        × ((if active then hear_all p calls s else s).selector ≡ s.selector)
  told-IsTracked true calls s w = hear_all-IsTracked calls s w
  told-IsTracked false calls s w = (w, refl)

  select-IsTracked :
      (t : Round) (s s' : Polling p)
      → IsTracked s
      → s.selector.tick + 1 < 2 ^ 64
      → select p t s ≡ ok s'
      → IsTracked s' × (s'.selector.tick ≤ s.selector.tick + 1)
  unfolding select
  select-IsTracked t s s' w room e =
      let timeout = poll_timeout t.now s.timer in
      let polled : Polling p = record s { selector = (poll p timeout s.selector).1 } in
      let (active, done, rest) = >>=-eq-ok _ _ e in
      let (followed, tick) =
        poll-IsFollowed p laws timeout w.wanted s.selector active w.followed room done in
      let tracked : IsTracked polled = record {
        wanted = w.wanted;
        distinct = w.distinct;
        followed = followed;
        last = w.last;
      } in
      let (w', same) = told-IsTracked active (t.in_action polled.selector.events) polled tracked in
      subst (λ x. IsTracked x × (x.selector.tick ≤ s.selector.tick + 1)) (ok-eq rest)
        (w', rw same tick)

  module _ (drain : Updates → Updates) (drains : DrainLaws drain) where
    apply_pending-IsSettled :
        (s s' : Polling p)
        → IsTracked s
        → apply_pending p drain s ≡ ok s'
        → IsSettled s' × (s'.selector.tick ≡ s.selector.tick)
    unfolding apply_pending
    apply_pending-IsSettled s s' w e =
        let (selector, done, rest) = >>=-eq-ok _ _ e in
        let (followed, tick) =
          apply_updates-IsFollowed p laws (drain s.socket_updates) w.wanted s.selector selector
            (drains.distinct _ w.distinct) w.followed done in
        subst (λ x. IsSettled x × (x.selector.tick ≡ s.selector.tick)) (ok-eq rest)
          (
            record {
              none_pending = refl;
              follows =
                  IsFollowed-wanted p laws _ _ selector
                    (λ j. ap (λ o. pending o (w.wanted j)) (drains.same _ w.distinct j) ∙ w.last j)
                    followed;
            },
            tick,
          )

    IsSettled-IsTracked : (s : Polling p) → IsSettled s → IsTracked s
    IsSettled-IsTracked s w = record {
      wanted = λ j. last_word j s.heard;
      distinct = rw w.none_pending tt;
      followed = w.follows;
      last = λ j. rw w.none_pending refl;
    }

    agent_poll-IsSettled :
        (t : Round) (s s' : Polling p)
        → IsSettled s
        → s.selector.tick + 1 < 2 ^ 64
        → agent_poll p drain t s ≡ ok s'
        → IsSettled s' × (s'.selector.tick ≤ s.selector.tick + 1)
    unfolding agent_poll
    agent_poll-IsSettled t s s' w room e =
        let (w1, same1) = hear_all-IsTracked t.before s (IsSettled-IsTracked s w) in
        let (s2, done, rest) = >>=-eq-ok _ _ e in
        let (w2, tick2) =
          select-IsTracked t (hear_all p t.before s) s2 w1
            (ground (arith, room, ap (λ x. x.tick) same1)) done in
        let (w3, same3) = expire-IsTracked t s2 w2 in
        let (w4, tick4) = apply_pending-IsSettled (expire p t s2) s' w3 rest in
        (w4, ground (arith, tick2, tick4, ap (λ x. x.tick) same3, ap (λ x. x.tick) same1))

    run_polls-IsSettled :
        (turns : List Round) (s s' : Polling p)
        → IsSettled s
        → s.selector.tick + length turns < 2 ^ 64
        → run_polls p drain turns s ≡ ok s'
        → IsSettled s'
    unfolding run_polls
    run_polls-IsSettled [] s s' w room e = subst IsSettled (ok-eq e) w
    run_polls-IsSettled (t ∷ more) s s' w room e =
        let (s1, done, rest) = >>=-eq-ok _ _ e in
        let (w1, tick1) = agent_poll-IsSettled t s s1 w (omega arith) done in
        run_polls-IsSettled more s1 s' w1 (omega arith) rest

    -- Fewer than 2^64 turns without a fault, whatever curl says about sockets and timeouts in them, in
    -- whatever order the map of the updates is drained: when the poller is about to be asked again, a
    -- socket that has not been found bad is armed with the interest of the last word that curl had said
    -- on it when the last turn ended, if that word was not to stop.
    pub run_polls-armed :
        (turns : List Round) (state : p.State) (s : Polling p) (j : ℕ) (i : Interest)
        → length turns < 2 ^ 64
        → run_polls p drain turns (new_polling p state) ≡ ok s
        → (before_wait p s.selector).0 ≡ none
        → has j (before_wait p s.selector).1.bad_sockets ≡ false
        → last_word j s.heard ≡ some i
        → p.armed j (before_wait p s.selector).1.poller ≡ some i
    unfolding new_selector last_word
    run_polls-armed turns state s j i room e ready good word =
        let w =
          run_polls-IsSettled turns (new_polling p state) s
            (record { none_pending = refl; follows = new_selector-IsFollowed p laws state })
            (omega arith) e in
        IsFollowed-armed p laws (λ k. last_word k s.heard) s.selector j i w.follows ready good word
