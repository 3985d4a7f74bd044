-- ===== src/Agent/Selector/Armed.antt =====
-- `Selector::poll` of src/agent/selector.rs up to the wait: what is armed when the poller is asked.
use isahc.Prelude.{
  ℕ, ◌≡◌, refl, ◌⊎◌, inl, inr, true, false, Option, none, some, List, arith, ◌==◌, Bool-cases,
  Option-cases,
}
use isahc.Agent.Selector.{
  Fault, Interest, SocketEvent, Poller, Registration, Selector, has_event, poller_add,
  poller_modify, rearm, rearmed, retry, is_err,
}
use isahc.Agent.Selector.Steps.{
  PollerLaws, IsArmed, Apart, Apart-refl, poller_add-armed, poller_modify-armed, poller_add-other,
  poller_modify-other, recorded, recorded-Apart, recorded-IsArmed,
}

module _ (p : Poller) (laws : PollerLaws p) where
  -- The socket is to be armed again for the given events: it has not been since they came.
  abbrev pub Pending : ℕ → List SocketEvent → Selector p → Type 0
  Pending j events s =
      (has_event j events ≡ true)
      × ((r : Registration) → s.sockets j ≡ some r → (r.tick == s.tick) ≡ false)

  rearmed-Apart :
      (k : ℕ) (i : Interest) (polled : Option Fault × p.State) (s : Selector p)
      → ((j : ℕ) → (k == j) ≡ false → p.armed j polled.1 ≡ p.armed j s.poller)
      → Apart p laws k s (rearmed p k i polled s).1
  unfolding rearmed
  rearmed-Apart k i (none, state) s other = recorded-Apart p laws k i state s other
  rearmed-Apart k i (some f, state) s other = record {
    same_tick = refl;
    same_events = refl;
    same_socket = λ j e. refl;
    same_armed = other;
    same_bad = λ j e. refl;
  }

  rearmed-IsArmed :
      (k : ℕ) (i : Interest) (polled : Option Fault × p.State) (s : Selector p)
      → (polled.0 ≡ none → p.armed k polled.1 ≡ some i)
      → (rearmed p k i polled s).0 ≡ none
      → IsArmed p laws k (rearmed p k i polled s).1
  unfolding rearmed
  rearmed-IsArmed k i (none, state) s armed e = recorded-IsArmed p laws k i state s (armed refl)
  rearmed-IsArmed k i (some f, state) s armed e = ground arith

  -- What a turn of the loop comes to: the socket is left as it is, since it is not known or was armed
  -- in this call already, or the poller is asked.
  pub rearm-cases :
      (k : ℕ) (s : Selector p)
      → ((rearm p k s ≡ (none, s)) × (s.sockets k ≡ none))
        ⊎ ((r : Registration) × (s.sockets k ≡ some r)
            × ((r.tick == s.tick) ≡ true)
            × (rearm p k s ≡ (none, s)))
        ⊎ ((r : Registration) × (s.sockets k ≡ some r)
            × ((r.tick == s.tick) ≡ false)
            × (rearm p k s ≡ rearmed p k r.interest (poller_modify p k r.interest s.poller) s))
  unfolding rearm
  rearm-cases k s = elim (Option-cases (s.sockets k)) [
    | inl e ↦ inl (rw (e, rearm) refl, e)
    | inr (r, e) ↦ elim (Bool-cases (r.tick == s.tick)) [
      | inl t ↦ inr (inl (r, e, t, rw (e, t, rearm) refl))
      | inr t ↦ inr (inr (r, e, t, rw (e, t, rearm) refl))
    ]
  ]

  pub rearm-bad : (k : ℕ) (s : Selector p) → (rearm p k s).1.bad_sockets ≡ s.bad_sockets
  rearm-bad k s = elim (rearm-cases k s) [
    | inl (same, e) ↦ rw same refl
    | inr (inl (r, e, t, same)) ↦ rw same refl
    | inr (inr (r, e, t, asked)) ↦
        rw asked (kept r.interest (poller_modify p k r.interest s.poller))
  ]
    where
      kept :
          (i : Interest) (polled : Option Fault × p.State)
          → (rearmed p k i polled s).1.bad_sockets ≡ s.bad_sockets
      kept i (none, state) = unfold rearmed in refl
      kept i (some f, state) = unfold rearmed in refl

  pub rearm-Apart : (k : ℕ) (s : Selector p) → Apart p laws k s (rearm p k s).1
  rearm-Apart k s = elim (rearm-cases k s) [
    | inl (same, e) ↦ rw same (Apart-refl p laws k s)
    | inr (inl (r, e, t, same)) ↦ rw same (Apart-refl p laws k s)
    | inr (inr (r, e, t, asked)) ↦ rw asked (
        rearmed-Apart k r.interest _ s
          (λ j apart. poller_modify-other p laws k j r.interest s.poller apart))
  ]

  -- A socket that is armed, or was last armed in an earlier call, is armed after its turn.
  pub rearm-IsArmed :
      (k : ℕ) (s : Selector p)
      → IsArmed p laws k s
        ⊎ ((r : Registration) → s.sockets k ≡ some r → (r.tick == s.tick) ≡ false)
      → (rearm p k s).0 ≡ none
      → IsArmed p laws k (rearm p k s).1
  rearm-IsArmed k s before = elim (rearm-cases k s) [
    | inl (same, e) ↦ rw same (λ ok r e'. ground (arith, e, e'))
    | inr (inl (r, e, t, same)) ↦ rw same (λ ok. current before r e t)
    | inr (inr (r, e, t, asked)) ↦
        rw asked
          (rearmed-IsArmed k r.interest _ s (poller_modify-armed p laws k r.interest s.poller))
  ]
    where
      current :
          IsArmed p laws k s
            ⊎ ((r : Registration) → s.sockets k ≡ some r → (r.tick == s.tick) ≡ false)
          → (r : Registration) → s.sockets k ≡ some r
          → (r.tick == s.tick) ≡ true
          → IsArmed p laws k s
      current (inl armed) r e t = armed
      current (inr stale) r e t = ground (arith, stale r e)

  pub retry-cases :
      (k : ℕ) (s : Selector p)
      → ((retry p k s ≡ (false, s)) × (s.sockets k ≡ none))
        ⊎ (retry p k s ≡ (true, s))
        ⊎ ((r : Registration) × (s.sockets k ≡ some r)
            × (retry p k s ≡ (
              is_err p (poller_add p k r.interest s.poller).0,
              recorded p laws k r.interest (poller_add p k r.interest s.poller).1 s,
            )))
  unfolding retry
  retry-cases k s = elim (Option-cases (s.sockets k)) [
    | inl e ↦ inl (rw (e, retry) refl, e)
    | inr (r, e) ↦ elim (Bool-cases (r.tick == s.tick)) [
      | inl t ↦ inr (inl (rw (e, t, retry) refl))
      | inr t ↦ inr (inr (r, e, rw (e, t, retry) refl))
    ]
  ]

  pub retry-Apart : (k : ℕ) (s : Selector p) → Apart p laws k s (retry p k s).1
  retry-Apart k s = elim (retry-cases k s) [
    | inl (same, e) ↦ rw same (Apart-refl p laws k s)
    | inr (inl same) ↦ rw same (Apart-refl p laws k s)
    | inr (inr (r, e, asked)) ↦ rw asked (
        recorded-Apart p laws k r.interest _ s
          (λ j apart. poller_add-other p laws k j r.interest s.poller apart))
  ]

  -- A bad socket that is not kept is armed, or no socket of the selector.
  pub retry-IsArmed :
      (k : ℕ) (s : Selector p) → (retry p k s).0 ≡ false → IsArmed p laws k (retry p k s).1
  retry-IsArmed k s = elim (retry-cases k s) [
    | inl (same, e) ↦ rw same (λ ok r e'. ground (arith, e, e'))
    | inr (inl same) ↦ rw same (λ b. ground arith)
    | inr (inr (r, e, asked)) ↦ rw asked (λ ok.
        recorded-IsArmed p laws k r.interest _ s
          (poller_add-armed p laws k r.interest s.poller (is_err-none _ ok)))
  ]
    where
      is_err-none : (fault : Option Fault) → is_err p fault ≡ false → fault ≡ none
      is_err-none none e = refl
      is_err-none (some f) e = ground arith
