-- ===== src/Agent/Loop/Answers.antt =====
-- What becomes of the requests that the loop of src/agent/mod.rs begins.
use isahc.Prelude.{
  ℕ, suc, ◌≡◌, refl, sym, ap, ◌∙◌, inl, inr, Bool, true, false, some, List, [], ◌∷◌, ◌++◌, map,
  arith, ◌==◌, Bool-cases, Option-cases, if◌then◌else◌, length, length-append, length-map, All, ◌+◌,
  subst,
}
use isahc.Prelude.Outcome.{Outcome, ok, err, >>=-eq-ok, ok-eq}
use isahc.Http.{HeaderMap, HeaderText}
use isahc.Error.{ErrorKind, unknown}
use isahc.Handler.{RequestHandler, Completion, Event, Built, response_future}
use isahc.Agent.Loop.{
  Agent, Message, close, execute, unpause_read, unpause_write, new_agent, remove, begin_request,
  drop_handler, complete_request, handle_message, call_back, Turn, received, called, completed,
  turn, run_turns, shut_down, run_agent,
}

module _ (texts : HeaderText) (h : HeaderMap) where
  -- How many requests a turn begins, of a loop that has been told to close or not.
  abbrev pub begins : Bool → Turn texts h → ℕ
  begins false (received id (execute request)) = 1
  begins _ _ = 0

  -- Whether the loop has been told to close after a turn.
  abbrev pub closes : Bool → Turn texts h → Bool
  closes _ (received id close) = true
  closes closed _ = closed

  abbrev pub begun : Bool → List (Turn texts h) → ℕ
  begun closed [] = 0
  begun closed (t ∷ more) = begins closed t + begun (closes closed t) more

  -- The response future of a handler has an answer.
  abbrev pub IsAnswered : RequestHandler h → Type 0
  IsAnswered handler =
      (message : Outcome ErrorKind (Built h)) × (response_future texts h handler ≡ some message)

  drop_handler-IsAnswered : (handler : RequestHandler h) → IsAnswered (drop_handler texts h handler)
  unfolding drop_handler response_future
  drop_handler-IsAnswered handler = elim (Option-cases handler.sent) [
    | inl e ↦ (err unknown, ground (arith, e))
    | inr (message, e) ↦ (message, ground (arith, e))
  ]

  -- The state after some turns of which `n` requests were begun.
  record Counts (n : ℕ) (closed : Bool) (s : Agent h) : Type 0 where
    total : length s.requests + length s.ended ≡ n
    closing : s.close_requested ≡ closed
    answered : All IsAnswered s.ended

  length-remove :
      (token : ℕ) (requests left : List (ℕ × RequestHandler h)) (found : RequestHandler h)
      → remove token requests ≡ some (found, left)
      → length requests ≡ suc (length left)
  unfolding remove
  length-remove token [] left found e = ground arith
  length-remove token ((id, handler) ∷ more) left found e = elim (Bool-cases (id == token)) [
    | inl same ↦ ground (arith, e, same)
    | inr other ↦ elim (Option-cases (remove token more)) [
      | inl gone ↦ ground (arith, e, other, gone)
      | inr ((f, rest), at) ↦ ground (arith, e, other, at, length-remove token more rest f at)
    ]
  ]

  length-call_back :
      (token : ℕ) (event : Event texts h) (requests : List (ℕ × RequestHandler h))
      → length (call_back texts h token event requests) ≡ length requests
  unfolding call_back
  length-call_back token event [] = refl
  length-call_back token event ((id, handler) ∷ more) = ap suc (length-call_back token event more)

  -- A message that changes neither the requests nor what has ended.
  Counts-same :
      (n m : ℕ) (closed : Bool) (s s' : Agent h)
      → Counts n closed s
      → m ≡ n
      → length s'.requests ≡ length s.requests
      → s'.ended ≡ s.ended
      → (closed' : Bool) → s'.close_requested ≡ closed'
      → Counts m closed' s'
  Counts-same n m closed s s' c same requests ended closed' closing = record {
    total = ground (arith, c.total, same, requests, ended);
    closing = closing;
    answered = subst (λ xs. All IsAnswered xs) (sym ended) c.answered;
  }

  handled-Counts :
      (id : ℕ) (message : Message h) (n : ℕ) (closed : Bool) (s : Agent h)
      → Counts n closed s
      → Counts
          (n + begins closed (received id message))
          (closes closed (received id message))
          (if closed then s else handle_message texts h id message s)
  unfolding handle_message begin_request
  handled-Counts id close n true s c =
      Counts-same n _ true s s c (omega arith) refl refl true c.closing
  handled-Counts id close n false s c =
      Counts-same n _ false s _ c (omega arith) refl refl true refl
  handled-Counts id (execute request) n true s c =
      Counts-same n _ true s s c (omega arith) refl refl true c.closing
  handled-Counts id (execute request) n false s c = record {
    total = ground (arith, c.total);
    closing = c.closing;
    answered = c.answered;
  }
  handled-Counts id (unpause_read token) n true s c =
      Counts-same n _ true s s c (omega arith) refl refl true c.closing
  handled-Counts id (unpause_read token) n false s c =
      Counts-same n _ false s s c (omega arith) refl refl false c.closing
  handled-Counts id (unpause_write token) n true s c =
      Counts-same n _ true s s c (omega arith) refl refl true c.closing
  handled-Counts id (unpause_write token) n false s c =
      Counts-same n _ false s s c (omega arith) refl refl false c.closing

  plus_zero : (n : ℕ) (closed : Bool) (s : Agent h) → Counts n closed s → Counts (n + 0) closed s
  plus_zero n closed s c = Counts-same n _ closed s s c (omega arith) refl refl closed c.closing

  call_back-Counts :
      (token : ℕ) (event : Event texts h) (n : ℕ) (closed : Bool) (s : Agent h)
      → Counts n closed s
      → Counts n closed (record s { requests = call_back texts h token event s.requests })
  call_back-Counts token event n closed s c =
      Counts-same n n closed s _ c refl (length-call_back token event s.requests) refl closed
        c.closing

  complete_request-Counts :
      (token : ℕ) (result : Completion) (n : ℕ) (closed : Bool) (s s' : Agent h)
      → Counts n closed s
      → complete_request texts h token result s ≡ ok s'
      → Counts n closed s'
  unfolding complete_request
  complete_request-Counts token result n closed s s' c =
      elim (Option-cases (remove token s.requests)) [
        | inl e ↦ rw (e, complete_request) (λ f. ground arith)
        | inr ((handler, left), e) ↦
            rw (e, complete_request)
              (λ f.
                subst (λ x. Counts n closed x) (ok-eq f)
                  (record {
                    total = ground (arith, c.total, length-remove token s.requests left handler e);
                    closing = c.closing;
                    answered = (drop_handler-IsAnswered _, c.answered);
                  }))
      ]

  turn-Counts :
      (t : Turn texts h) (n : ℕ) (closed : Bool) (s s' : Agent h)
      → Counts n closed s
      → turn texts h t s ≡ ok s'
      → Counts (n + begins closed t) (closes closed t) s'
  unfolding turn
  turn-Counts (received id message) n closed s s' c e =
      subst
        (λ x.
          Counts (n + begins closed (received id message)) (closes closed (received id message)) x)
        (handled e)
        (subst
          (λ b.
            Counts (n + begins closed (received id message)) (closes closed (received id message))
              (if b then s else handle_message texts h id message s))
          (sym c.closing) (handled-Counts id message n closed s c))
    where
      handled :
          turn texts h (received id message) s ≡ ok s'
          → (if s.close_requested then s else handle_message texts h id message s) ≡ s'
      handled e = elim (Bool-cases s.close_requested) [
        | inl b ↦ ground (arith, b, e)
        | inr b ↦ ground (arith, b, e)
      ]
  turn-Counts (called token event) n true s s' c e =
      subst (λ x. Counts (n + 0) true x) (ok-eq e)
        (plus_zero n true _ (call_back-Counts token event n true s c))
  turn-Counts (called token event) n false s s' c e =
      subst (λ x. Counts (n + 0) false x) (ok-eq e)
        (plus_zero n false _ (call_back-Counts token event n false s c))
  turn-Counts (completed token result) n true s s' c e =
      plus_zero n true s' (complete_request-Counts token result n true s s' c e)
  turn-Counts (completed token result) n false s s' c e =
      plus_zero n false s' (complete_request-Counts token result n false s s' c e)

  run_turns-Counts :
      (turns : List (Turn texts h)) (n : ℕ) (closed : Bool) (s s' : Agent h)
      → Counts n closed s
      → run_turns texts h turns s ≡ ok s'
      → (closed' : Bool) × Counts (n + begun closed turns) closed' s'
  unfolding run_turns
  run_turns-Counts [] n closed s s' c e =
      (closed, subst (λ x. Counts (n + 0) closed x) (ok-eq e) (plus_zero n closed s c))
  run_turns-Counts (t ∷ more) n closed s s' c e =
      let (mid, first, rest) = >>=-eq-ok (turn texts h t s) _ e in
      let (closed', c') =
        run_turns-Counts more (n + begins closed t) (closes closed t) mid s'
          (turn-Counts t n closed s mid c first) rest in
      (
        closed',
        Counts-same _ (n + begun closed (t ∷ more)) closed' s' s' c' (omega arith) refl refl closed'
            c'.closing,
      )

  dropped-IsAnswered :
      (requests : List (ℕ × RequestHandler h)) (ended : List (RequestHandler h))
      → All IsAnswered ended
      → All IsAnswered (map (λ entry. drop_handler texts h entry.1) requests ++ ended)
  dropped-IsAnswered [] ended a = a
  dropped-IsAnswered ((id, handler) ∷ more) ended a =
      (drop_handler-IsAnswered handler, dropped-IsAnswered more ended a)

  -- When the loop of the agent ends, in whatever order messages, calls of curl and ends of transfers
  -- came, the response future of every request that it has begun has an answer, and as many are
  -- answered as were received before the message to close.
  pub run_agent-IsAnswered :
      (turns : List (Turn texts h)) (handlers : List (RequestHandler h))
      → run_agent texts h turns ≡ ok handlers
      → All IsAnswered handlers × (length handlers ≡ begun false turns)
  unfolding run_agent shut_down
  run_agent-IsAnswered turns handlers e =
      let (s, ran, done) = >>=-eq-ok (run_turns texts h turns (new_agent h)) _ e in
      let start : Counts 0 false (new_agent h) = record {
        total = omega arith;
        closing = refl;
        answered = tt;
      } in
      let (closed, c) = run_turns-Counts turns 0 false (new_agent h) s start ran in
      subst (λ xs. All IsAnswered xs × (length xs ≡ begun false turns)) (ok-eq done)
        (
          dropped-IsAnswered s.requests s.ended c.answered,
          length-append (map (λ entry. drop_handler texts h entry.1) s.requests) s.ended
              ∙ ap (λ k. k + length s.ended)
                  (length-map s.requests (λ entry. drop_handler texts h entry.1))
              ∙ c.total
              ∙ omega arith,
        )
