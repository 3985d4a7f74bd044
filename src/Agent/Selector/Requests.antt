-- ===== src/Agent/Selector/Requests.antt =====
-- `Selector::register` and `Selector::deregister` of src/agent/selector.rs: what they do to the
-- sockets.
use isahc.Prelude.{
  ℕ, ◌≡◌, refl, sym, ap, ◌∙◌, ◌⊎◌, inl, inr, true, false, not, ◌||◌, Option, none, some, List, [],
  ◌∷◌, arith, ◌==◌, Bool-cases, Option-cases, if◌then◌else◌, ◌≤◌, ==_iff, ==_refl, filter, subst,
}
use isahc.Agent.Selector.{
  Fault, Interest, Poller, Registration, Selector, has, put, insert_socket, register, register_at,
  registered, is_bad_socket_error, deregister,
}
use isahc.Agent.Selector.Steps.{
  PollerLaws, IsArmed, Apart, Apart-IsArmed, recorded, recorded-Apart, recorded-IsArmed,
  poller_add-armed, poller_modify-armed, poller_add-other, poller_modify-other,
}
use isahc.Agent.Selector.Kept.{interest_of, put-tick, IsTimed}
use isahc.Agent.Selector.Rounds.{Watched, IsWatched}

has-insert_socket : (k j : ℕ) (bad : List ℕ) → has j (insert_socket k bad) ≡ ((k == j) || has j bad)
has-insert_socket k j bad = elim (Bool-cases (has k bad)) [
  | inl e ↦ elim (Bool-cases (k == j)) [
    | inl same ↦ rw (e, same) (subst (λ x. has x bad ≡ true) ((==_iff k j).0 same) e)
    | inr apart ↦ rw (e, apart) refl
  ]
  | inr e ↦ rw e refl
]

has-filter :
    (k j : ℕ) (bad : List ℕ) → (k == j) ≡ false → has j (filter (λ x. not (x == k)) bad) ≡ has j bad
has-filter k j [] e = refl
has-filter k j (x ∷ bad) e = ground (arith, has-filter k j bad e)

module _ (p : Poller) (laws : PollerLaws p) where
  Watched-Apart :
      (k j : ℕ) (s s' : Selector p)
      → Apart p laws k s s'
      → (k == j) ≡ false
      → Watched p laws j s
      → Watched p laws j s'
  Watched-Apart k j s s' a apart (inl bad) = inl (a.same_bad j apart ∙ bad)
  Watched-Apart k j s s' a apart (inr (inl armed)) =
      inr (inl (Apart-IsArmed p laws k j s s' a apart armed))
  Watched-Apart k j s s' a apart (inr (inr (found, stale))) = inr (
      inr (
        rw a.same_events found,
        λ r at. ap (λ t. r.tick == t) a.same_tick ∙ stale r (sym (a.same_socket j apart) ∙ at),
      ))

  register_at-armed :
      (previous : Option Registration) (k : ℕ) (i : Interest) (s : p.State)
      → (register_at p previous k i s).0 ≡ none
      → p.armed k (register_at p previous k i s).1 ≡ some i
  unfolding register_at
  register_at-armed none k i s e = poller_add-armed p laws k i s e
  register_at-armed (some r) k i s e = poller_modify-armed p laws k i s e

  register_at-other :
      (previous : Option Registration) (k j : ℕ) (i : Interest) (s : p.State)
      → (k == j) ≡ false
      → p.armed j (register_at p previous k i s).1 ≡ p.armed j s
  unfolding register_at
  register_at-other none k j i s e = poller_add-other p laws k j i s e
  register_at-other (some r) k j i s e = poller_modify-other p laws k j i s e

  -- The socket that is registered is armed or bad, if the call succeeds.
  registered-own :
      (k : ℕ) (result : Option Fault) (s : Selector p)
      → (result ≡ none → IsArmed p laws k s)
      → (registered p k result s).0 ≡ none
      → Watched p laws k (registered p k result s).1
  unfolding registered
  registered-own k none s armed = λ ok. inr (inl (armed refl))
  registered-own k (some f) s armed = elim (Bool-cases (is_bad_socket_error f)) [
    | inl e ↦ rw e (λ ok. inl (has-insert_socket k k s.bad_sockets ∙ rw (==_refl k) refl))
    | inr e ↦ rw e (λ ok. ground arith)
  ]

  registered-Apart :
      (k : ℕ) (result : Option Fault) (s s' : Selector p)
      → Apart p laws k s s'
      → Apart p laws k s (registered p k result s').1
  unfolding registered
  registered-Apart k none s s' a = a
  registered-Apart k (some f) s s' a = elim (Bool-cases (is_bad_socket_error f)) [
    | inl e ↦ rw e (record {
      same_tick = a.same_tick;
      same_events = a.same_events;
      same_socket = a.same_socket;
      same_armed = a.same_armed;
      same_bad =
          λ j apart. has-insert_socket k j s'.bad_sockets ∙ rw apart refl ∙ a.same_bad j apart;
    })
    | inr e ↦ rw e a
  ]

  registered-sockets :
      (k : ℕ) (result : Option Fault) (s : Selector p)
      → ((registered p k result s).1.sockets ≡ s.sockets)
        × ((registered p k result s).1.tick ≡ s.tick)
  unfolding registered
  registered-sockets k none s = (refl, refl)
  registered-sockets k (some f) s = elim (Bool-cases (is_bad_socket_error f)) [
    | inl e ↦ rw e (refl, refl)
    | inr e ↦ rw e (refl, refl)
  ]

  -- After a registration that succeeds, the sockets are watched as before, and the interest of the
  -- socket is the new one.
  pub register-IsWatched :
      (k : ℕ) (i : Interest) (s : Selector p)
      → IsWatched p laws s
      → (register p k i s).0 ≡ none
      → IsWatched p laws (register p k i s).1
  unfolding register
  register-IsWatched k i s w ok =
      let asked = register_at p (s.sockets k) k i s.poller in
      let s' = recorded p laws k i asked.1 s in
      let (same, tick) = registered-sockets k asked.0 s' in
      let apart = registered-Apart k asked.0 s s' (
        recorded-Apart p laws k i asked.1 s
          (λ j e. register_at-other (s.sockets k) k j i s.poller e)) in
      record {
        watched = λ j. elim (Bool-cases (k == j)) [
          | inl e ↦
              subst (λ x. Watched p laws x (registered p k asked.0 s').1) ((==_iff k j).0 e)
                (registered-own k asked.0 s'
                  (λ done.
                    recorded-IsArmed p laws k i asked.1 s
                      (register_at-armed (s.sockets k) k i s.poller done))
                  ok)
          | inr e ↦ Watched-Apart k j s _ apart e (w.watched j)
        ];
        timed = λ j r at.
            subst (λ t. r.tick ≤ t) (sym tick)
              (put-tick p laws k j i s r w.timed (sym (ap (λ f. f j) same) ∙ at));
      }

  pub register-sockets :
      (k : ℕ) (i : Interest) (s : Selector p)
      → ((register p k i s).1.tick ≡ s.tick)
        × ((j : ℕ)
            → interest_of ((register p k i s).1.sockets j)
              ≡ (if k == j then some i else interest_of (s.sockets j)))
  unfolding register
  register-sockets k i s =
      let asked = register_at p (s.sockets k) k i s.poller in
      let (same, tick) = registered-sockets k asked.0 (recorded p laws k i asked.1 s) in
      (tick, λ j. ap (λ f. interest_of (f j)) same ∙ put-interest j)
    where
      put-interest :
          (j : ℕ)
          → interest_of (put k (some (record { interest = i; tick = s.tick })) s.sockets j)
            ≡ (if k == j then some i else interest_of (s.sockets j))
      put-interest j = elim (Bool-cases (k == j)) [ inl e ↦ rw e refl | inr e ↦ rw e refl ]

  -- What is left when a socket that is known is forgotten.
  abbrev forgotten : ℕ → p.State → Selector p → Selector p
  forgotten k state s = record s {
    poller = state;
    sockets = put k none s.sockets;
    bad_sockets = filter (λ x. not (x == k)) s.bad_sockets;
  }

  deregister-cases :
      (k : ℕ) (s : Selector p)
      → ((deregister p k s).1 ≡ s) × (s.sockets k ≡ none)
        ⊎ ((deregister p k s).1 ≡ forgotten k (p.delete k s.poller).1 s)
  unfolding deregister
  deregister-cases k s = elim (Option-cases (s.sockets k)) [
    | inl e ↦ inl (rw (e, deregister) refl, e)
    | inr (r, e) ↦ inr (rw (e, deregister) refl)
  ]

  forgotten-Apart :
      (k : ℕ) (s : Selector p) → Apart p laws k s (forgotten k (p.delete k s.poller).1 s)
  forgotten-Apart k s = record {
    same_tick = refl;
    same_events = refl;
    same_socket = λ j e. rw e refl;
    same_armed = λ j e. laws.delete-other k j s.poller e;
    same_bad = λ j e. has-filter k j s.bad_sockets e;
  }

  forgotten-gone :
      (k j : ℕ) (state : p.State) (s : Selector p) (r : Registration)
      → (k == j) ≡ true
      → (forgotten k state s).sockets j ≡ some r
      → none ≡ some r
  forgotten-gone k j state s r e at = ground (arith, e, at)

  forgotten-timed :
      (k j : ℕ) (state : p.State) (s : Selector p) (r : Registration)
      → IsTimed p laws s
      → (forgotten k state s).sockets j ≡ some r
      → r.tick ≤ s.tick
  forgotten-timed k j state s r t = elim (Bool-cases (k == j)) [
    | inl e ↦ rw e (λ at. ground arith)
    | inr e ↦ rw e (λ at. t j r at)
  ]

  -- After a socket is forgotten the others are watched as before.
  pub deregister-IsWatched :
      (k : ℕ) (s : Selector p) → IsWatched p laws s → IsWatched p laws (deregister p k s).1
  deregister-IsWatched k s w = elim (deregister-cases k s) [
    | inl (same, e) ↦ rw same w
    | inr same ↦ rw same (record {
      watched = λ j. elim (Bool-cases (k == j)) [
        | inl e ↦
            inr (inl (λ r at. ground (arith, forgotten-gone k j (p.delete k s.poller).1 s r e at)))
        | inr e ↦ Watched-Apart k j s _ (forgotten-Apart k s) e (w.watched j)
      ];
      timed = λ j r at. forgotten-timed k j (p.delete k s.poller).1 s r w.timed at;
    })
  ]

  pub deregister-sockets :
      (k : ℕ) (s : Selector p)
      → ((deregister p k s).1.tick ≡ s.tick)
        × ((j : ℕ)
            → interest_of ((deregister p k s).1.sockets j)
              ≡ (if k == j then none else interest_of (s.sockets j)))
  deregister-sockets k s = elim (deregister-cases k s) [
    | inl (same, e) ↦ rw same (
      refl,
      λ j. elim (Bool-cases (k == j)) [
        | inl b ↦ rw b (ap (λ x. interest_of (s.sockets x)) (sym ((==_iff k j).0 b)) ∙ rw e refl)
        | inr b ↦ rw b refl
      ],
    )
    | inr same ↦
        rw same (refl, λ j. elim (Bool-cases (k == j)) [ inl b ↦ rw b refl | inr b ↦ rw b refl ])
  ]
