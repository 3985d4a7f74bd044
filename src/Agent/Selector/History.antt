-- ===== src/Agent/Selector/History.antt =====
-- The selector of src/agent/selector.rs over any sequence of calls that succeed. The agent stops at
-- the first call that fails.
use isahc.Prelude.{
  ℕ, ◌≡◌, refl, sym, ap, ◌∙◌, inl, inr, Bool, false, Option, none, some, List, [], ◌∷◌, arith, ◌==◌,
  Option-cases, if◌then◌else◌, ◌≤◌, ◌<◌, ◌+◌, ◌^◌, length, some-eq, subst,
}
use isahc.Prelude.Outcome.{Outcome, ok, err, panic}
use isahc.Agent.Selector.{
  Fault, Interest, Poller, Selector, has, register, deregister, before_wait, poll, new_selector,
}
use isahc.Agent.Selector.Steps.{PollerLaws}
use isahc.Agent.Selector.Kept.{interest_of, before_wait-Keeps}
use isahc.Agent.Selector.Rounds.{IsWatched, before_wait-IsArmed, poll-IsWatched, poll-sockets}
use isahc.Agent.Selector.Requests.{
  register-IsWatched, register-sockets, deregister-IsWatched, deregister-sockets,
}

pub data Call : Type 0 where
  registers : ℕ → Interest → Call
  deregisters : ℕ → Call
  polls : ℕ → Call

-- What is asked for a socket: the last registration counts.
abbrev pub asked : Call → (ℕ → Option Interest) → ℕ → Option Interest
asked (registers k i) wanted j = if k == j then some i else wanted j
asked (deregisters k) wanted j = if k == j then none else wanted j
asked (polls timeout) wanted j = wanted j

abbrev pub all_asked : List Call → (ℕ → Option Interest) → ℕ → Option Interest
all_asked [] wanted = wanted
all_asked (call ∷ more) wanted = all_asked more (asked call wanted)

module _ (p : Poller) where
  fine : Option Fault × Selector p → Option (Selector p)
  fine (none, s) = some s
  fine (some f, s) = none

  polled : Outcome Fault Bool × Selector p → Option (Selector p)
  polled (ok b, s) = some s
  polled (err f, s) = none
  polled (panic, s) = none

  unfoldable pub perform : Call → Selector p → Option (Selector p)
  unfolding fine polled
  perform (registers k i) s = fine (register p k i s)
  perform (deregisters k) s = fine (deregister p k s)
  perform (polls timeout) s = polled (poll p timeout s)

  unfoldable pub perform_all : List Call → Selector p → Option (Selector p)
  perform_all [] s = some s
  perform_all (call ∷ more) s = elim (perform call s) [
    | none ↦ none
    | some s' ↦ perform_all more s'
  ]

module _ (p : Poller) (laws : PollerLaws p) where
  -- The sockets are watched, each for what is wanted of it.
  pub record IsFollowed (wanted : ℕ → Option Interest) (s : Selector p) : Type 0 where
    pub watch : IsWatched p laws s
    pub interest : (j : ℕ) → interest_of (s.sockets j) ≡ wanted j

  fine-eq-some :
      (q : Option Fault × Selector p) (s' : Selector p)
      → fine p q ≡ some s'
      → (q.0 ≡ none) × (q.1 ≡ s')
  unfolding fine
  fine-eq-some (none, s) s' e = (refl, some-eq e)
  fine-eq-some (some f, s) s' e = ground arith

  polled-eq-some :
      (q : Outcome Fault Bool × Selector p) (s' : Selector p)
      → polled p q ≡ some s'
      → (b : Bool) × (q.0 ≡ ok b) × (q.1 ≡ s')
  unfolding polled
  polled-eq-some (ok b, s) s' e = (b, refl, some-eq e)
  polled-eq-some (err f, s) s' e = ground arith
  polled-eq-some (panic, s) s' e = ground arith

  pub register-IsFollowed :
      (k : ℕ) (i : Interest) (wanted : ℕ → Option Interest) (s : Selector p)
      → IsFollowed wanted s
      → (register p k i s).0 ≡ none
      → IsFollowed (asked (registers k i) wanted) (register p k i s).1
        × ((register p k i s).1.tick ≡ s.tick)
  register-IsFollowed k i wanted s w done =
      let (tick, at) = register-sockets p laws k i s in
      (
        record {
          watch = register-IsWatched p laws k i s w.watch done;
          interest = λ j. at j ∙ ap (λ o. if k == j then some i else o) (w.interest j);
        },
        tick,
      )

  pub deregister-IsFollowed :
      (k : ℕ) (wanted : ℕ → Option Interest) (s : Selector p)
      → IsFollowed wanted s
      → IsFollowed (asked (deregisters k) wanted) (deregister p k s).1
        × ((deregister p k s).1.tick ≡ s.tick)
  deregister-IsFollowed k wanted s w =
      let (tick, at) = deregister-sockets p laws k s in
      (
        record {
          watch = deregister-IsWatched p laws k s w.watch;
          interest = λ j. at j ∙ ap (λ o. if k == j then none else o) (w.interest j);
        },
        tick,
      )

  pub poll-IsFollowed :
      (timeout : ℕ) (wanted : ℕ → Option Interest) (s : Selector p) (b : Bool)
      → IsFollowed wanted s
      → s.tick + 1 < 2 ^ 64
      → (poll p timeout s).0 ≡ ok b
      → IsFollowed wanted (poll p timeout s).1 × ((poll p timeout s).1.tick ≤ s.tick + 1)
  poll-IsFollowed timeout wanted s b w room done =
      let (tick, at) = poll-sockets p laws timeout s b room done in
      (
        record {
          watch = poll-IsWatched p laws timeout s b w.watch room done;
          interest = λ j. at j ∙ w.interest j;
        },
        ground (arith, tick),
      )

  perform-IsFollowed :
      (call : Call) (wanted : ℕ → Option Interest) (s s' : Selector p)
      → IsFollowed wanted s
      → s.tick + 1 < 2 ^ 64
      → perform p call s ≡ some s'
      → IsFollowed (asked call wanted) s' × (s'.tick ≤ s.tick + 1)
  unfolding perform
  perform-IsFollowed (registers k i) wanted s s' w room e =
      let (done, same) = fine-eq-some (register p k i s) s' e in
      let (w', tick) = register-IsFollowed k i wanted s w done in
      subst (λ x. IsFollowed (asked (registers k i) wanted) x × (x.tick ≤ s.tick + 1)) same
        (w', ground (arith, tick))
  perform-IsFollowed (deregisters k) wanted s s' w room e =
      let (done, same) = fine-eq-some (deregister p k s) s' e in
      let (w', tick) = deregister-IsFollowed k wanted s w in
      subst (λ x. IsFollowed (asked (deregisters k) wanted) x × (x.tick ≤ s.tick + 1)) same
        (w', ground (arith, tick))
  perform-IsFollowed (polls timeout) wanted s s' w room e =
      let (b, done, same) = polled-eq-some (poll p timeout s) s' e in
      subst (λ x. IsFollowed wanted x × (x.tick ≤ s.tick + 1)) same
        (poll-IsFollowed timeout wanted s b w room done)

  perform_all-next :
      (call : Call) (more : List Call) (s s' : Selector p)
      → perform_all p (call ∷ more) s ≡ some s'
      → (t : Selector p) × (perform p call s ≡ some t) × (perform_all p more t ≡ some s')
  unfolding perform_all
  perform_all-next call more s s' = elim (Option-cases (perform p call s)) [
    | inl e ↦ rw (e, perform_all) (λ f. ground arith)
    | inr (t, e) ↦ rw (e, perform_all) (λ f. (t, refl, f))
  ]

  perform_all-IsFollowed :
      (calls : List Call) (wanted : ℕ → Option Interest) (s s' : Selector p)
      → IsFollowed wanted s
      → s.tick + length calls < 2 ^ 64
      → perform_all p calls s ≡ some s'
      → IsFollowed (all_asked calls wanted) s'
  perform_all-IsFollowed [] wanted s s' w room e =
      let same : some s ≡ some s' = unfold perform_all in e in
      subst (λ x. IsFollowed wanted x) (some-eq same) w
  perform_all-IsFollowed (call ∷ more) wanted s s' w room e =
      let (t, first, rest) = perform_all-next call more s s' e in
      let (w', tick) = perform-IsFollowed call wanted s t w (omega arith) first in
      perform_all-IsFollowed more (asked call wanted) t s' w' (omega arith) rest

  pub new_selector-IsFollowed : (state : p.State) → IsFollowed (λ j. none) (new_selector p state)
  unfolding new_selector
  new_selector-IsFollowed state = record {
    watch = record {
      watched = λ j. inr (inl (λ r at. ground arith));
      timed = λ j r at. ground arith;
    };
    interest = λ j. refl;
  }

  -- A socket that is followed is armed whenever the poller is about to be asked, if the selector has
  -- come so far and has not found it bad.
  pub IsFollowed-armed :
      (wanted : ℕ → Option Interest) (s : Selector p) (j : ℕ) (i : Interest)
      → IsFollowed wanted s
      → (before_wait p s).0 ≡ none
      → has j (before_wait p s).1.bad_sockets ≡ false
      → wanted j ≡ some i
      → p.armed j (before_wait p s).1.poller ≡ some i
  IsFollowed-armed wanted s j i w ready good e =
      let armed = before_wait-IsArmed p laws j s (w.watch.watched j) ready good in
      let at = (before_wait-Keeps p laws s).interest j ∙ w.interest j ∙ e in
      elim (Option-cases ((before_wait p s).1.sockets j)) [
        | inl gone ↦ ground (arith, sym (ap (λ o. interest_of o) gone) ∙ at)
        | inr (r, here) ↦ armed r here ∙ sym (ap (λ o. interest_of o) here) ∙ at
      ]

  -- After any sequence of successful calls, fewer than 2 ^ 64, whenever the poller is about to be
  -- asked, a socket that is registered and has not been found bad is armed with the interest of its
  -- last registration, although each wait disarms the sockets of its events.
  perform_all-armed :
      (calls : List Call) (state : p.State) (s : Selector p) (j : ℕ) (i : Interest)
      → length calls < 2 ^ 64
      → perform_all p calls (new_selector p state) ≡ some s
      → (before_wait p s).0 ≡ none
      → has j (before_wait p s).1.bad_sockets ≡ false
      → all_asked calls (λ k. none) j ≡ some i
      → p.armed j (before_wait p s).1.poller ≡ some i
  unfolding new_selector
  perform_all-armed calls state s j i room e ready good wanted =
      let w =
        perform_all-IsFollowed calls (λ k. none) (new_selector p state) s
          (new_selector-IsFollowed state) (omega arith) e in
      IsFollowed-armed (all_asked calls (λ k. none)) s j i w ready good wanted
