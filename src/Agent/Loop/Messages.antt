-- ===== src/Agent/Loop/Messages.antt =====
-- `AgentContext::poll_messages` of src/agent/mod.rs: the messages that wait in the channel, each with
-- the key that is vacant when it is handled. The agent has a sender of its own, so the channel is never
-- closed while it runs.
use isahc.Prelude.{
  ℕ, ◌≡◌, refl, ◌⊎◌, inl, inr, Bool, true, false, List, [], ◌∷◌, ◌++◌, map, if◌then◌else◌,
  Bool-cases, ap, ◌∙◌,
}
use isahc.Prelude.Outcome.{ok}
use isahc.Http.{HeaderMap, HeaderText}
use isahc.Handler.{RequestHandler}
use isahc.Agent.Loop.{Agent, Message, Turn, received, turn, run_turns, handle_message}

abbrev pub Queue : HeaderMap → Type 0
Queue h = List (ℕ × Message h)

-- Where a call stands when the channel is empty: it blocks in `recv`, or it has returned and left the
-- messages that it did not take.
pub data Polled (h : HeaderMap) : Type 0 where
  blocks : Agent h → Polled h
  returns : Agent h → Queue h → Polled h

abbrev pub is_idle : {h : HeaderMap} → List (ℕ × RequestHandler h) → Bool
is_idle [] = true
is_idle (entry ∷ more) = false

module _ (texts : HeaderText) (h : HeaderMap) where
  unfoldable pub poll_messages : Queue h → Agent h → Polled h
  poll_messages [] s =
      if s.close_requested
      then returns s []
      else if is_idle s.requests
      then blocks s
      else returns s []
  poll_messages ((id, message) ∷ more) s =
      let rest = poll_messages more (handle_message texts h id message s) in
      if s.close_requested then returns s ((id, message) ∷ more) else rest

  -- The turns of the main loop that a call takes.
  abbrev pub turns_of : Queue h → List (Turn texts h)
  turns_of queue = map (λ entry. received entry.0 entry.1) queue

  -- The messages before the last leave the agent open.
  abbrev pub StaysOpen : Queue h → Agent h → Type 0
  StaysOpen [] s = Unit
  StaysOpen ((id, message) ∷ more) s =
      (s.close_requested ≡ false) × StaysOpen more (handle_message texts h id message s)

  pub record HasReturned (queue : Queue h) (s : Agent h) : Type 0 where
    handled : Queue h
    left : Queue h
    after : Agent h
    split : queue ≡ handled ++ left
    result : poll_messages queue s ≡ returns after left
    runs : run_turns texts h (turns_of handled) s ≡ ok after
    open_before : StaysOpen handled s
    why :
        (after.close_requested ≡ true)
        ⊎ ((left ≡ []) × (after.close_requested ≡ false) × (is_idle after.requests ≡ false))

  pub record IsBlocked (queue : Queue h) (s : Agent h) : Type 0 where
    after : Agent h
    result : poll_messages queue s ≡ blocks after
    runs : run_turns texts h (turns_of queue) s ≡ ok after
    not_closed : after.close_requested ≡ false
    idle : is_idle after.requests ≡ true

  run_turns-received :
      (id : ℕ) (message : Message h) (more : List (Turn texts h)) (s : Agent h)
      → s.close_requested ≡ false
      → run_turns texts h (received id message ∷ more) s
        ≡ run_turns texts h more (handle_message texts h id message s)
  unfolding run_turns turn
  run_turns-received id message more s not_closed = rw not_closed refl

  poll_messages-open :
      (id : ℕ) (message : Message h) (more : Queue h) (s : Agent h)
      → s.close_requested ≡ false
      → poll_messages ((id, message) ∷ more) s
        ≡ poll_messages more (handle_message texts h id message s)
  unfolding poll_messages
  poll_messages-open id message more s not_closed =
      ap
        (λ b.
          if b
          then returns s ((id, message) ∷ more)
          else poll_messages more (handle_message texts h id message s))
        not_closed

  -- A call takes the messages in their order, as turns of the main loop, until one closes the agent or
  -- none is left. It returns when the agent is closed, leaving the later messages, or when it has
  -- requests; otherwise it blocks, open and without a request.
  pub poll_messages-cases :
      (queue : Queue h) (s : Agent h) → HasReturned queue s ⊎ IsBlocked queue s
  unfolding poll_messages run_turns
  poll_messages-cases [] s = elim (Bool-cases s.close_requested) [
    | inl closed ↦ inl (record {
      handled = [];
      left = [];
      after = s;
      split = refl;
      result = rw closed refl;
      runs = refl;
      open_before = tt;
      why = inl closed;
    })
    | inr not_closed ↦ elim (Bool-cases (is_idle s.requests)) [
      | inl idle ↦ inr (record {
        after = s;
        result = rw (not_closed, idle) refl;
        runs = refl;
        not_closed = not_closed;
        idle = idle;
      })
      | inr busy ↦ inl (record {
        handled = [];
        left = [];
        after = s;
        split = refl;
        result = rw (not_closed, busy) refl;
        runs = refl;
        open_before = tt;
        why = inr (refl, not_closed, busy);
      })
    ]
  ]
  poll_messages-cases ((id, message) ∷ more) s =
      let rest = poll_messages-cases more (handle_message texts h id message s) in
      elim (Bool-cases s.close_requested) [
        | inl closed ↦ inl (record {
          handled = [];
          left = (id, message) ∷ more;
          after = s;
          split = refl;
          result = rw closed refl;
          runs = refl;
          open_before = tt;
          why = inl closed;
        })
        | inr not_closed ↦ elim rest [
          | inl w ↦ inl (record {
            handled = (id, message) ∷ w.handled;
            left = w.left;
            after = w.after;
            split = ap (λ q. (id, message) ∷ q) w.split;
            result = poll_messages-open id message more s not_closed ∙ w.result;
            runs = rw (run_turns-received id message (turns_of w.handled) s not_closed) w.runs;
            open_before = (not_closed, w.open_before);
            why = w.why;
          })
          | inr w ↦ inr (record {
            after = w.after;
            result = poll_messages-open id message more s not_closed ∙ w.result;
            runs = rw (run_turns-received id message (turns_of more) s not_closed) w.runs;
            not_closed = w.not_closed;
            idle = w.idle;
          })
        ]
      ]
