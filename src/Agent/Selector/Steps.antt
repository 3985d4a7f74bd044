-- ===== src/Agent/Selector/Steps.antt =====
-- What the calls of src/agent/selector.rs on one socket do to that socket and to the others, by the
-- documented behaviour of a poller.
use isahc.Prelude.{ℕ, ◌≡◌, refl, sym, ap, ◌∙◌, false, Option, none, some, ◌==◌, ==_refl}
use isahc.Agent.Selector.{
  Fault, Interest, Poller, Registration, Selector, has, has_event, put, retried, poller_add,
  poller_modify,
}

-- A call that succeeds arms its socket with the interest; no call changes what other sockets are
-- armed with, and a wait disarms only the sockets of its events.
pub record PollerLaws (p : Poller) : Type 0 where
  pub add-armed :
      (k : ℕ) (i : Interest) (s : p.State)
      → (p.add k i s).0 ≡ none
      → p.armed k (p.add k i s).1 ≡ some i
  pub modify-armed :
      (k : ℕ) (i : Interest) (s : p.State)
      → (p.modify k i s).0 ≡ none
      → p.armed k (p.modify k i s).1 ≡ some i
  pub add-other :
      (k j : ℕ) (i : Interest) (s : p.State)
      → (k == j) ≡ false
      → p.armed j (p.add k i s).1 ≡ p.armed j s
  pub modify-other :
      (k j : ℕ) (i : Interest) (s : p.State)
      → (k == j) ≡ false
      → p.armed j (p.modify k i s).1 ≡ p.armed j s
  pub delete-other :
      (k j : ℕ) (s : p.State) → (k == j) ≡ false → p.armed j (p.delete k s).1 ≡ p.armed j s
  pub wait-other :
      (j timeout : ℕ) (s : p.State)
      → has_event j (p.wait timeout s).1 ≡ false
      → p.armed j (p.wait timeout s).2 ≡ p.armed j s

module _ (p : Poller) (laws : PollerLaws p) where
  -- The poller watches the socket for what it was registered for, if it was.
  abbrev pub IsArmed : ℕ → Selector p → Type 0
  IsArmed j s = (r : Registration) → s.sockets j ≡ some r → p.armed j s.poller ≡ some r.interest

  -- What a call on the socket `k` leaves alone.
  pub record Apart (k : ℕ) (s s' : Selector p) : Type 0 where
    pub same_tick : s'.tick ≡ s.tick
    pub same_events : s'.events ≡ s.events
    pub same_socket : (j : ℕ) → (k == j) ≡ false → s'.sockets j ≡ s.sockets j
    pub same_armed : (j : ℕ) → (k == j) ≡ false → p.armed j s'.poller ≡ p.armed j s.poller
    pub same_bad : (j : ℕ) → (k == j) ≡ false → has j s'.bad_sockets ≡ has j s.bad_sockets

  pub Apart-IsArmed :
      (k j : ℕ) (s s' : Selector p) → Apart k s s' → (k == j) ≡ false → IsArmed j s → IsArmed j s'
  Apart-IsArmed k j s s' a apart armed r e =
      a.same_armed j apart ∙ armed r (sym (a.same_socket j apart) ∙ e)

  pub Apart-refl : (k : ℕ) (s : Selector p) → Apart k s s
  Apart-refl k s = record {
    same_tick = refl;
    same_events = refl;
    same_socket = λ j e. refl;
    same_armed = λ j e. refl;
    same_bad = λ j e. refl;
  }

  pub poller_add-armed :
      (k : ℕ) (i : Interest) (s : p.State)
      → (poller_add p k i s).0 ≡ none
      → p.armed k (poller_add p k i s).1 ≡ some i
  unfolding poller_add retried
  poller_add-armed k i s e = from (p.add k i s) (laws.add-armed k i s) e
    where
      from :
          (first : Option Fault × p.State)
          → (first.0 ≡ none → p.armed k first.1 ≡ some i)
          → (retried p (p.modify k i) first).0 ≡ none
          → p.armed k (retried p (p.modify k i) first).1 ≡ some i
      from (none, state) a e = a refl
      from (some f, state) a e = laws.modify-armed k i state e

  pub poller_modify-armed :
      (k : ℕ) (i : Interest) (s : p.State)
      → (poller_modify p k i s).0 ≡ none
      → p.armed k (poller_modify p k i s).1 ≡ some i
  unfolding poller_modify retried
  poller_modify-armed k i s e = from (p.modify k i s) (laws.modify-armed k i s) e
    where
      from :
          (first : Option Fault × p.State)
          → (first.0 ≡ none → p.armed k first.1 ≡ some i)
          → (retried p (p.add k i) first).0 ≡ none
          → p.armed k (retried p (p.add k i) first).1 ≡ some i
      from (none, state) a e = a refl
      from (some f, state) a e = laws.add-armed k i state e

  retried-other :
      (again : p.State → Option Fault × p.State) (first : Option Fault × p.State) (j : ℕ)
      → ((s : p.State) → p.armed j (again s).1 ≡ p.armed j s)
      → p.armed j (retried p again first).1 ≡ p.armed j first.1
  unfolding retried
  retried-other again (none, state) j a = refl
  retried-other again (some f, state) j a = a state

  pub poller_add-other :
      (k j : ℕ) (i : Interest) (s : p.State)
      → (k == j) ≡ false
      → p.armed j (poller_add p k i s).1 ≡ p.armed j s
  unfolding poller_add
  poller_add-other k j i s e =
      retried-other (p.modify k i) (p.add k i s) j (λ t. laws.modify-other k j i t e)
      ∙ laws.add-other k j i s e

  pub poller_modify-other :
      (k j : ℕ) (i : Interest) (s : p.State)
      → (k == j) ≡ false
      → p.armed j (poller_modify p k i s).1 ≡ p.armed j s
  unfolding poller_modify
  poller_modify-other k j i s e =
      retried-other (p.add k i) (p.modify k i s) j (λ t. laws.add-other k j i t e)
      ∙ laws.modify-other k j i s e

  -- A socket that has just been armed, and recorded with the same interest.
  abbrev pub recorded : ℕ → Interest → p.State → Selector p → Selector p
  recorded k i state s = record s {
    poller = state;
    sockets = put k (some (record { interest = i; tick = s.tick })) s.sockets;
  }

  pub recorded-Apart :
      (k : ℕ) (i : Interest) (state : p.State) (s : Selector p)
      → ((j : ℕ) → (k == j) ≡ false → p.armed j state ≡ p.armed j s.poller)
      → Apart k s (recorded k i state s)
  recorded-Apart k i state s other = record {
    same_tick = refl;
    same_events = refl;
    same_socket = λ j e. rw e refl;
    same_armed = other;
    same_bad = λ j e. refl;
  }

  pub recorded-IsArmed :
      (k : ℕ) (i : Interest) (state : p.State) (s : Selector p)
      → p.armed k state ≡ some i
      → IsArmed k (recorded k i state s)
  recorded-IsArmed k i state s armed r e = armed ∙ ap (λ o. interest_of o) (sym at ∙ e)
    where
      interest_of : Option Registration → Option Interest
      interest_of none = none
      interest_of (some q) = some q.interest

      at :
          put k (some (record { interest = i; tick = s.tick })) s.sockets k
          ≡ some (record { interest = i; tick = s.tick })
      at = rw (==_refl k) refl
