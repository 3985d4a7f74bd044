-- ===== src/Agent/Selector/Examples.antt =====
-- A poller that reports the socket 3 whenever it is armed, and a run of the selector of
-- src/agent/selector.rs on it.
use isahc.Prelude.{
  ℕ, ◌≡◌, refl, true, false, Option, none, some, List, [], ◌∷◌, arith, ◌==◌, if◌then◌else◌, ==_refl,
}
use isahc.Agent.Selector.{
  deregister, Fault, Interest, SocketEvent, Poller, Selector, has_event, before_wait, new_selector,
  register, poll, rearm_all, poller_modify, poller_add, retry_all,
}
use isahc.Agent.Selector.Steps.{PollerLaws}
use isahc.Agent.Selector.History.{Call, registers, deregisters, polls, perform, perform_all}

abbrev Interests : Type 0
Interests = ℕ → Option Interest

abbrev arm : ℕ → Option Interest → Interests → Interests
arm k i s j = if k == j then i else s j

abbrev report : Option Interest → Interests → Option Fault × List SocketEvent × Interests
report none s = (none, [], s)
report (some i) s = (none, (3, i) ∷ [], arm 3 none s)

abbrev pub oneshot : Poller
oneshot = record {
  State = Interests;
  add = λ k i s. (none, arm k (some i) s);
  modify = λ k i s. (none, arm k (some i) s);
  delete = λ k s. (none, arm k none s);
  wait = λ timeout s. report (s 3) s;
  armed = λ k s. s k;
}

report-other :
    (i : Option Interest) (j : ℕ) (s : Interests)
    → has_event j (report i s).1 ≡ false
    → (report i s).2 j ≡ s j
report-other none j s e = refl
report-other (some i) j s e = ground (arith, e)

pub oneshot-PollerLaws : PollerLaws oneshot
oneshot-PollerLaws = record {
  add-armed = λ k i s e. rw (==_refl k) refl;
  modify-armed = λ k i s e. rw (==_refl k) refl;
  add-other = λ k j i s e. rw e refl;
  modify-other = λ k j i s e. rw e refl;
  delete-other = λ k j s e. rw e refl;
  wait-other = λ j timeout s e. report-other (s 3) j s e;
}

-- The socket 3 is registered, reported and disarmed; then the poller is asked again.
abbrev calls : List Call
calls = registers 3 (true, false) ∷ registers 5 (true, true) ∷ polls 1000 ∷ deregisters 5 ∷ []

abbrev fresh : Selector oneshot
fresh = new_selector oneshot (λ k. none)

abbrev or_fresh : Option (Selector oneshot) → Selector oneshot
or_fresh none = fresh
or_fresh (some s) = s

abbrev later : Selector oneshot
later = or_fresh (perform_all oneshot calls fresh)

disarmed : later.poller 3 ≡ none
unfolding perform_all perform new_selector register poll before_wait rearm_all retry_all deregister
    poller_add poller_modify
disarmed = refl
