-- ===== src/Agent/Poll/Updates.antt =====
-- The map of the socket updates of src/agent/mod.rs: what it has for a socket, and what comes of it
-- when it is drained into the selector of src/agent/selector.rs.
use isahc.Prelude.{
  ℕ, ◌≡◌, refl, sym, ap, ◌∙◌, subst, inl, inr, Option, none, some, [], ◌∷◌, ◌==◌, arith,
  if◌then◌else◌, Bool-cases, Option-cases, ==_iff, ◌||◌,
}
use isahc.Prelude.Outcome.{ok, ok-eq}
use isahc.Agent.Selector.{Interest, Poller, Selector}
use isahc.Agent.Selector.Steps.{PollerLaws}
use isahc.Agent.Selector.History.{IsFollowed, register-IsFollowed, deregister-IsFollowed}
use isahc.Agent.Poll.{SocketEvents, Updates, insert_update, apply_update, apply_updates}

abbrev pub lookup : ℕ → Updates → Option SocketEvents
lookup j [] = none
lookup j ((k, e) ∷ more) = if k == j then some e else lookup j more

-- No socket is there twice.
abbrev pub Distinct : Updates → Type 0
Distinct [] = Unit
Distinct ((k, e) ∷ more) = (lookup k more ≡ none) × Distinct more

-- A map is drained in some order: the entries that come out are those that were there, each once.
pub record DrainLaws (drain : Updates → Updates) : Type 0 where
  pub distinct : (updates : Updates) → Distinct updates → Distinct (drain updates)
  pub same :
      (updates : Updates) → Distinct updates → (j : ℕ) → lookup j (drain updates) ≡ lookup j updates

-- What curl wants of a socket.
abbrev pub interest_asked : SocketEvents → Option Interest
interest_asked e =
    if e.remove then none else some (e.input || e.input_and_output, e.output || e.input_and_output)

abbrev pub pending : Option SocketEvents → Option Interest → Option Interest
pending none wanted = wanted
pending (some e) wanted = interest_asked e

pub lookup-insert :
    (j k : ℕ) (e : SocketEvents) (updates : Updates)
    → lookup j (insert_update k e updates) ≡ (if k == j then some e else lookup j updates)
unfolding insert_update
lookup-insert j k e [] = refl
lookup-insert j k e ((l, f) ∷ more) =
    let rest = lookup-insert j k e more in
    elim (Bool-cases (l == k)) [
      | inl at ↦ ground (arith, at)
      | inr off ↦ rw (off, rest) (ground (arith, off))
    ]

pub insert-Distinct :
    (k : ℕ) (e : SocketEvents) (updates : Updates)
    → Distinct updates
    → Distinct (insert_update k e updates)
unfolding insert_update
insert-Distinct k e [] d = (refl, tt)
insert-Distinct k e ((l, f) ∷ more) (fresh, d) =
    let rest = insert-Distinct k e more d in
    elim (Bool-cases (l == k)) [
      | inl at ↦ rw at (ground (arith, at, fresh), d)
      | inr off ↦ rw off (lookup-insert l k e more ∙ ground (arith, off, fresh), rest)
    ]

module _ (p : Poller) (laws : PollerLaws p) where
  pub IsFollowed-wanted :
      (wanted wanted' : ℕ → Option Interest) (s : Selector p)
      → ((j : ℕ) → wanted j ≡ wanted' j)
      → IsFollowed p laws wanted s
      → IsFollowed p laws wanted' s
  IsFollowed-wanted wanted wanted' s same w = record {
    watch = w.watch;
    interest = λ j. w.interest j ∙ same j;
  }

  apply_update-IsFollowed :
      (k : ℕ) (e : SocketEvents) (wanted : ℕ → Option Interest) (s : Selector p)
      → IsFollowed p laws wanted s
      → (apply_update p k e s).0 ≡ none
      → IsFollowed p laws
          (λ j. if k == j then interest_asked e else wanted j)
          (apply_update p k e s).1
        × ((apply_update p k e s).1.tick ≡ s.tick)
  unfolding apply_update
  apply_update-IsFollowed k e wanted s w = elim (Bool-cases e.remove) [
    | inl gone ↦ rw gone (λ done. deregister-IsFollowed p laws k wanted s w)
    | inr stays ↦ rw stays (λ done. register-IsFollowed p laws k _ wanted s w done)
  ]

  apply_updates-next :
      (k : ℕ) (e : SocketEvents) (more : Updates) (s s' : Selector p)
      → apply_updates p ((k, e) ∷ more) s ≡ ok s'
      → ((apply_update p k e s).0 ≡ none) × (apply_updates p more (apply_update p k e s).1 ≡ ok s')
  unfolding apply_updates
  apply_updates-next k e more s s' = elim (Option-cases (apply_update p k e s).0) [
    | inl fine ↦ rw (apply_updates, fine) (λ f. (refl, f))
    | inr (fault, bad) ↦ rw (apply_updates, bad) (λ f. cc)
  ]

  -- Entries that come out of the map one after the other: the selector follows each, and what it
  -- followed before for the other sockets.
  pub apply_updates-IsFollowed :
      (updates : Updates) (wanted : ℕ → Option Interest) (s s' : Selector p)
      → Distinct updates
      → IsFollowed p laws wanted s
      → apply_updates p updates s ≡ ok s'
      → IsFollowed p laws (λ j. pending (lookup j updates) (wanted j)) s' × (s'.tick ≡ s.tick)
  unfolding apply_updates
  apply_updates-IsFollowed [] wanted s s' d w e =
      subst (λ x. IsFollowed p laws wanted x × (x.tick ≡ s.tick)) (ok-eq e) (w, refl)
  apply_updates-IsFollowed ((k, events) ∷ more) wanted s s' (fresh, d) w e =
      let (done, rest) = apply_updates-next k events more s s' e in
      let (w', tick) = apply_update-IsFollowed k events wanted s w done in
      let (w'', tick') = apply_updates-IsFollowed more _ _ s' d w' rest in
      (IsFollowed-wanted _ _ s' (λ j. first j) w'', tick' ∙ tick)
    where
      first :
          (j : ℕ)
          → pending (lookup j more) (if k == j then interest_asked events else wanted j)
            ≡ pending (if k == j then some events else lookup j more) (wanted j)
      first j = elim (Bool-cases (k == j)) [
        | inl at ↦ rw (at, sym (ap (λ x. lookup x more) ((==_iff k j).0 at)) ∙ fresh) refl
        | inr off ↦ rw off refl
      ]
