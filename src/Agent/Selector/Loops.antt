-- ===== src/Agent/Selector/Loops.antt =====
-- The loops of `Selector::poll` of src/agent/selector.rs: over the events of the last call, and over
-- the bad sockets.
use isahc.Prelude.{
  ℕ, ◌≡◌, refl, sym, ap, ◌∙◌, ◌⊎◌, inl, inr, true, false, none, some, List, [], ◌∷◌, arith, ◌==◌,
  Bool-cases, Option-cases, ==_iff, subst,
}
use isahc.Agent.Selector.{
  Fault, SocketEvent, Poller, Selector, has, has_event, rearm, rearm_all, retry, retry_all,
}
use isahc.Agent.Selector.Steps.{PollerLaws, IsArmed, Apart-IsArmed}
use isahc.Agent.Selector.Armed.{
  Pending, rearm-Apart, rearm-IsArmed, rearm-bad, retry-Apart, retry-IsArmed,
}

module _ (p : Poller) (laws : PollerLaws p) where
  pub rearm_all-next :
      (event : SocketEvent) (more : List SocketEvent) (s : Selector p)
      → ((rearm p event.0 s).0 ≡ none)
          × (rearm_all p (event ∷ more) s ≡ rearm_all p more (rearm p event.0 s).1)
        ⊎ ((f : Fault) × (rearm_all p (event ∷ more) s ≡ (some f, (rearm p event.0 s).1)))
  unfolding rearm_all
  rearm_all-next event more s = elim (Option-cases (rearm p event.0 s).0) [
    | inl e ↦ inl (e, rw (e, rearm_all) refl)
    | inr (f, e) ↦ inr (f, rw (e, rearm_all) refl)
  ]

  rearm-keeps :
      (k j : ℕ) (s : Selector p)
      → IsArmed p laws j s
      → (rearm p k s).0 ≡ none
      → IsArmed p laws j (rearm p k s).1
  rearm-keeps k j s armed = elim (Bool-cases (k == j)) [
    | inl e ↦
        subst (λ x. (rearm p x s).0 ≡ none → IsArmed p laws j (rearm p x s).1)
          (sym ((==_iff k j).0 e)) (rearm-IsArmed p laws j s (inl armed))
    | inr e ↦ λ ok. Apart-IsArmed p laws k j s _ (rearm-Apart p laws k s) e armed
  ]

  rearm-Pending :
      (event : SocketEvent) (more : List SocketEvent) (j : ℕ) (s : Selector p)
      → Pending p laws j (event ∷ more) s
      → (rearm p event.0 s).0 ≡ none
      → IsArmed p laws j (rearm p event.0 s).1 ⊎ Pending p laws j more (rearm p event.0 s).1
  rearm-Pending (k, i) more j s (found, stale) = elim (Bool-cases (k == j)) [
    | inl e ↦
        subst
          (λ x.
            (rearm p x s).0 ≡ none
            → IsArmed p laws j (rearm p x s).1 ⊎ Pending p laws j more (rearm p x s).1)
          (sym ((==_iff k j).0 e)) (λ ok. inl (rearm-IsArmed p laws j s (inr stale) ok))
    | inr e ↦ λ ok. inr (
      later e,
      λ r at.
          ap (λ t. r.tick == t) (rearm-Apart p laws k s).same_tick
          ∙ stale r (sym ((rearm-Apart p laws k s).same_socket j e) ∙ at),
    )
  ]
    where
      later : (k == j) ≡ false → has_event j more ≡ true
      later e = ground (arith, found)

  pub rearm_all-IsArmed :
      (events : List SocketEvent) (j : ℕ) (s : Selector p)
      → IsArmed p laws j s ⊎ Pending p laws j events s
      → (rearm_all p events s).0 ≡ none
      → IsArmed p laws j (rearm_all p events s).1
  rearm_all-IsArmed [] j s (inl armed) = unfold rearm_all in λ ok. armed
  rearm_all-IsArmed [] j s (inr (found, stale)) = λ ok. ground (arith, found)
  rearm_all-IsArmed (event ∷ more) j s before = elim (rearm_all-next event more s) [
    | inl (fine, same) ↦ rw same (rearm_all-IsArmed more j _ (after before fine))
    | inr (f, same) ↦ rw same (λ ok. ground arith)
  ]
    where
      after :
          IsArmed p laws j s ⊎ Pending p laws j (event ∷ more) s
          → (rearm p event.0 s).0 ≡ none
          → IsArmed p laws j (rearm p event.0 s).1 ⊎ Pending p laws j more (rearm p event.0 s).1
      after (inl armed) fine = inl (rearm-keeps event.0 j s armed fine)
      after (inr pending) fine = rearm-Pending event more j s pending fine

  pub rearm_all-bad :
      (events : List SocketEvent) (s : Selector p)
      → (rearm_all p events s).1.bad_sockets ≡ s.bad_sockets
  rearm_all-bad [] s = unfold rearm_all in refl
  rearm_all-bad (event ∷ more) s = elim (rearm_all-next event more s) [
    | inl (fine, same) ↦ rw same (rearm_all-bad more _ ∙ rearm-bad p laws event.0 s)
    | inr (f, same) ↦ rw same (rearm-bad p laws event.0 s)
  ]

  retry-keeps :
      (k j : ℕ) (s : Selector p)
      → (k == j) ≡ false
      → IsArmed p laws j s
      → IsArmed p laws j (retry p k s).1
  retry-keeps k j s e armed = Apart-IsArmed p laws k j s _ (retry-Apart p laws k s) e armed

  -- After the bad sockets have been tried again, those of them that are not kept are armed, as is
  -- any other socket that was.
  pub retry_all-IsArmed :
      (bad : List ℕ) (j : ℕ) (s : Selector p)
      → (has j bad ≡ true) ⊎ IsArmed p laws j s
      → has j (retry_all p bad s).0 ≡ false
      → IsArmed p laws j (retry_all p bad s).1
  unfolding retry_all
  retry_all-IsArmed [] j s (inl found) dropped = ground (arith, found)
  retry_all-IsArmed [] j s (inr armed) dropped = armed
  retry_all-IsArmed (k ∷ more) j s before dropped =
      retry_all-IsArmed more j (retry p k s).1 (after (Bool-cases (k == j)) before) rest
    where
      rest : has j (retry_all p more (retry p k s).1).0 ≡ false
      rest = elim (Bool-cases (retry p k s).0) [
        | inl keep ↦ ground (arith, keep, dropped)
        | inr drop ↦ ground (arith, drop, dropped)
      ]

      own : k ≡ j → IsArmed p laws j (retry p k s).1
      own same = subst (λ x. IsArmed p laws x (retry p k s).1) same (retry-IsArmed p laws k s drops)
        where
          drops : (retry p k s).0 ≡ false
          drops = elim (Bool-cases (retry p k s).0) [
            | inl keep ↦ ground (arith, keep, dropped, same)
            | inr drop ↦ drop
          ]

      after :
          ((k == j) ≡ true) ⊎ ((k == j) ≡ false)
          → (has j (k ∷ more) ≡ true) ⊎ IsArmed p laws j s
          → (has j more ≡ true) ⊎ IsArmed p laws j (retry p k s).1
      after (inl e) _ = inr (own ((==_iff k j).0 e))
      after (inr e) (inl found) = inl (ground (arith, found, e))
      after (inr e) (inr armed) = inr (retry-keeps k j s e armed)
