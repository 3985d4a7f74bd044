-- ===== src/Agent/Selector/Kept.antt =====
-- What `Selector::poll` of src/agent/selector.rs keeps up to the wait: what each socket is registered
-- for, the tick, and that no registration is of a later tick.
use isahc.Prelude.{
  ℕ, ◌≡◌, refl, sym, ap, ◌∙◌, ◌⊎◌, inl, inr, true, false, Option, none, some, List, [], ◌∷◌, arith,
  ◌==◌, Bool-cases, Option-cases, ◌≤◌, ==_iff,
}
use isahc.Agent.Selector.{
  Fault, Interest, SocketEvent, Poller, Registration, Selector, put, rearm, rearmed, rearm_all,
  retry, retry_all, retry_bad, before_wait,
}
use isahc.Agent.Selector.Steps.{PollerLaws, recorded}
use isahc.Agent.Selector.Armed.{rearm-cases, retry-cases}
use isahc.Agent.Selector.Loops.{rearm_all-next}

abbrev pub interest_of : Option Registration → Option Interest
interest_of none = none
interest_of (some r) = some r.interest

module _ (p : Poller) (laws : PollerLaws p) where
  -- No socket was registered or armed in a later tick than the current one.
  abbrev pub IsTimed : Selector p → Type 0
  IsTimed s = (j : ℕ) (r : Registration) → s.sockets j ≡ some r → r.tick ≤ s.tick

  -- The second state has the tick of the first, and wants the same of each socket.
  pub record Keeps (s s' : Selector p) : Type 0 where
    pub tick : s'.tick ≡ s.tick
    pub interest : (j : ℕ) → interest_of (s'.sockets j) ≡ interest_of (s.sockets j)
    pub timed : IsTimed s → IsTimed s'

  Keeps-refl : (s : Selector p) → Keeps s s
  Keeps-refl s = record { tick = refl; interest = λ j. refl; timed = λ t. t }

  pub Keeps-trans : (s t u : Selector p) → Keeps s t → Keeps t u → Keeps s u
  Keeps-trans s t u a b = record {
    tick = b.tick ∙ a.tick;
    interest = λ j. b.interest j ∙ a.interest j;
    timed = λ c. b.timed (a.timed c);
  }

  pub put-tick :
      (k j : ℕ) (i : Interest) (s : Selector p) (r : Registration)
      → IsTimed s
      → put k (some (record { interest = i; tick = s.tick })) s.sockets j ≡ some r
      → r.tick ≤ s.tick
  put-tick k j i s r t = elim (Bool-cases (k == j)) [
    | inl e ↦ rw e (λ at. ground (arith, ap (λ o. tick_of o) at))
    | inr e ↦ rw e (λ at. t j r at)
  ]
    where
      tick_of : Option Registration → ℕ
      tick_of none = s.tick
      tick_of (some q) = q.tick

  recorded-Keeps :
      (k : ℕ) (r : Registration) (state : p.State) (s : Selector p)
      → s.sockets k ≡ some r
      → Keeps s (recorded p laws k r.interest state s)
  recorded-Keeps k r state s e = record {
    tick = refl;
    interest = λ j. same j (Bool-cases (k == j));
    timed = λ t j q. put-tick k j r.interest s q t;
  }
    where
      same :
          (j : ℕ)
          → ((k == j) ≡ true) ⊎ ((k == j) ≡ false)
          → interest_of (put k (some (record { interest = r.interest; tick = s.tick })) s.sockets j)
            ≡ interest_of (s.sockets j)
      same j (inl b) =
          rw b (sym (ap (λ o. interest_of o) (ap (λ x. s.sockets x) (sym ((==_iff k j).0 b)) ∙ e)))
      same j (inr b) = rw b refl

  rearmed-Keeps :
      (k : ℕ) (r : Registration) (polled : Option Fault × p.State) (s : Selector p)
      → s.sockets k ≡ some r
      → Keeps s (rearmed p k r.interest polled s).1
  unfolding rearmed
  rearmed-Keeps k r (none, state) s e = recorded-Keeps k r state s e
  rearmed-Keeps k r (some f, state) s e = record {
    tick = refl;
    interest = λ j. refl;
    timed = λ t. t;
  }

  rearm-Keeps : (k : ℕ) (s : Selector p) → Keeps s (rearm p k s).1
  rearm-Keeps k s = elim (rearm-cases p laws k s) [
    | inl (same, e) ↦ rw same (Keeps-refl s)
    | inr (inl (r, e, t, same)) ↦ rw same (Keeps-refl s)
    | inr (inr (r, e, t, asked)) ↦ rw asked (rearmed-Keeps k r _ s e)
  ]

  rearm_all-Keeps : (events : List SocketEvent) (s : Selector p) → Keeps s (rearm_all p events s).1
  rearm_all-Keeps [] s = unfold rearm_all in Keeps-refl s
  rearm_all-Keeps (event ∷ more) s = elim (rearm_all-next p laws event more s) [
    | inl (fine, same) ↦
        rw same (Keeps-trans s _ _ (rearm-Keeps event.0 s) (rearm_all-Keeps more _))
    | inr (f, same) ↦ rw same (rearm-Keeps event.0 s)
  ]

  retry-Keeps : (k : ℕ) (s : Selector p) → Keeps s (retry p k s).1
  retry-Keeps k s = elim (retry-cases p laws k s) [
    | inl (same, e) ↦ rw same (Keeps-refl s)
    | inr (inl same) ↦ rw same (Keeps-refl s)
    | inr (inr (r, e, asked)) ↦ rw asked (recorded-Keeps k r _ s e)
  ]

  pub retry_all-Keeps : (bad : List ℕ) (s : Selector p) → Keeps s (retry_all p bad s).1
  unfolding retry_all
  retry_all-Keeps [] s = Keeps-refl s
  retry_all-Keeps (k ∷ more) s =
      Keeps-trans s _ _ (retry-Keeps k s) (retry_all-Keeps more (retry p k s).1)

  retry_bad-Keeps : (s : Selector p) → Keeps s (retry_bad p s)
  unfolding retry_bad
  retry_bad-Keeps s =
      let k = retry_all-Keeps s.bad_sockets (record s { events = [] }) in
      record { tick = k.tick; interest = k.interest; timed = k.timed }

  pub before_wait-next :
      (s : Selector p)
      → ((rearm_all p s.events s).0 ≡ none)
          × (before_wait p s ≡ (none, retry_bad p (rearm_all p s.events s).1))
        ⊎ ((f : Fault) × (before_wait p s ≡ (some f, (rearm_all p s.events s).1)))
  unfolding before_wait
  before_wait-next s = elim (Option-cases (rearm_all p s.events s).0) [
    | inl e ↦ inl (e, rw (e, before_wait) refl)
    | inr (f, e) ↦ inr (f, rw (e, before_wait) refl)
  ]

  pub before_wait-Keeps : (s : Selector p) → Keeps s (before_wait p s).1
  before_wait-Keeps s = elim (before_wait-next s) [
    | inl (fine, same) ↦
        rw same (Keeps-trans s _ _ (rearm_all-Keeps s.events s) (retry_bad-Keeps _))
    | inr (f, same) ↦ rw same (rearm_all-Keeps s.events s)
  ]
