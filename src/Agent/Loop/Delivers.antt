-- ===== src/Agent/Loop/Delivers.antt =====
-- What the loop of src/agent/mod.rs tells the response future of a request whose transfer ends.
use isahc.Prelude.{
  ℕ, ◌≡◌, refl, sym, ap, ◌∙◌, inl, inr, true, false, Option, some, List, [], ◌∷◌, ◌++◌, map, arith,
  Bool-cases, Option-cases, if◌then◌else◌, length, All, subst,
}
use isahc.Prelude.Has.{Has, Has-append_right}
use isahc.Prelude.Outcome.{Outcome, ok, >>=-eq-ok, ok-eq}
use isahc.Http.{HeaderMap, HeaderText}
use isahc.Error.{ErrorKind}
use isahc.Handler.{
  RequestHandler, Completion, succeeded, failed, Built, set_result, response_future,
  complete_response_future, build_response,
}
use isahc.Handler.Coherent.{IsCoherent}
use isahc.Handler.Once.{answer}
use isahc.Agent.Loop.{
  Agent, Message, close, execute, unpause_read, unpause_write, new_agent, remove, begin_request,
  drop_handler, complete_request, handle_message, Turn, received, called, completed, turn,
  run_turns, shut_down, run_agent,
}
use isahc.Agent.Loop.Answers.{IsAnswered, begun, run_agent-IsAnswered}

module _ (texts : HeaderText) (h : HeaderMap) where
  -- What the response future of a handler has when its transfer ends and it is dropped: the answer of
  -- the transfer, or what it had before.
  abbrev pub delivered : Completion → RequestHandler h → Option (Outcome ErrorKind (Built h))
  delivered result handler =
      if handler.sender
      then some (answer texts h result handler)
      else response_future texts h handler

  drop_handler-delivered :
      (result : Completion) (handler : RequestHandler h)
      → IsCoherent texts h handler
      → handler.canceled ≡ false
      → response_future texts h (drop_handler texts h (set_result texts h result handler))
        ≡ delivered result handler
  unfolding drop_handler set_result complete_response_future response_future build_response
  drop_handler-delivered succeeded handler c kept = ground arith
  drop_handler-delivered (failed kind) handler c kept = ground arith

  handle_message-ended :
      (id : ℕ) (message : Message h) (s : Agent h)
      → (handle_message texts h id message s).ended ≡ s.ended
  unfolding handle_message begin_request
  handle_message-ended id close s = refl
  handle_message-ended id (execute request) s = refl
  handle_message-ended id (unpause_read token) s = refl
  handle_message-ended id (unpause_write token) s = refl

  complete_request-ended :
      (token : ℕ) (result : Completion) (handler : RequestHandler h)
      (left : List (ℕ × RequestHandler h)) (s s' : Agent h)
      → remove token s.requests ≡ some (handler, left)
      → complete_request texts h token result s ≡ ok s'
      → s'.ended ≡ drop_handler texts h (set_result texts h result handler) ∷ s.ended
  unfolding complete_request
  complete_request-ended token result handler left s s' e =
      rw (e, complete_request) (λ f. ap (λ (x : Agent h). x.ended) (sym (ok-eq f)))

  -- A handler that has been dropped stays so.
  turn-ended :
      (t : Turn texts h) (s s' : Agent h) (handler : RequestHandler h)
      → turn texts h t s ≡ ok s'
      → Has handler s.ended
      → Has handler s'.ended
  unfolding turn
  turn-ended (received id message) s s' handler e there = elim (Bool-cases s.close_requested) [
    | inl closed ↦ subst (λ (x : Agent h). Has handler x.ended) (kept closed) there
    | inr going ↦
        subst (λ (x : Agent h). Has handler x.ended) (handled going)
          (subst (Has handler) (sym (handle_message-ended id message s)) there)
  ]
    where
      kept : s.close_requested ≡ true → s ≡ s'
      kept closed = ground (arith, closed, e)

      handled : s.close_requested ≡ false → handle_message texts h id message s ≡ s'
      handled going = ground (arith, going, e)
  turn-ended (called token event) s s' handler e there =
      subst (λ (x : Agent h). Has handler x.ended) (ok-eq e) there
  turn-ended (completed token result) s s' handler e there =
      elim (Option-cases (remove token s.requests)) [
        | inl gone ↦ absurd (unfold complete_request in ground (arith, gone, e))
        | inr ((found, left), at) ↦
            subst (Has handler) (sym (complete_request-ended token result found left s s' at e))
              (inr there)
      ]

  run_turns-ended :
      (turns : List (Turn texts h)) (s s' : Agent h) (handler : RequestHandler h)
      → run_turns texts h turns s ≡ ok s'
      → Has handler s.ended
      → Has handler s'.ended
  unfolding run_turns
  run_turns-ended [] s s' handler e there =
      subst (λ (x : Agent h). Has handler x.ended) (ok-eq e) there
  run_turns-ended (t ∷ more) s s' handler e there =
      let (mid, first, rest) = >>=-eq-ok (turn texts h t s) _ e in
      run_turns-ended more mid s' handler rest (turn-ended t s mid handler first there)

  run_turns-append :
      (before after : List (Turn texts h)) (start s s' : Agent h)
      → run_turns texts h before start ≡ ok s
      → run_turns texts h (before ++ after) start ≡ ok s'
      → run_turns texts h after s ≡ ok s'
  unfolding run_turns
  run_turns-append [] after start s s' e f =
      subst (λ x. run_turns texts h after x ≡ ok s') (ok-eq e) f
  run_turns-append (t ∷ more) after start s s' e f =
      let (mid, first, rest) = >>=-eq-ok (turn texts h t start) _ e in
      let (mid', first', rest') = >>=-eq-ok (turn texts h t start) _ f in
      run_turns-append more after mid s s' rest (
        subst (λ x. run_turns texts h (more ++ after) x ≡ ok s') (ok-eq (sym first' ∙ first)) rest')

  -- In a run of the loop, in whatever order messages, calls of curl and ends of transfers come: the
  -- transfer of a request that runs ends, and its response future is there. When the loop has ended,
  -- that future has the error of the transfer or the response that was received, unless the response
  -- was sent before; then it has what it had. Every other request that was begun has an answer too,
  -- and they are as many as came before the message to close.
  pub run_agent-delivers :
      (before after : List (Turn texts h)) (token : ℕ) (result : Completion) (s : Agent h)
      (handler : RequestHandler h) (left : List (ℕ × RequestHandler h))
      (handlers : List (RequestHandler h))
      → run_turns texts h before (new_agent h) ≡ ok s
      → remove token s.requests ≡ some (handler, left)
      → IsCoherent texts h handler
      → handler.canceled ≡ false
      → run_agent texts h (before ++ completed token result ∷ after) ≡ ok handlers
      → ((done : RequestHandler h) × Has done handlers
          × (response_future texts h done ≡ delivered result handler))
        × All (IsAnswered texts h) handlers
        × (length handlers ≡ begun texts h false (before ++ completed token result ∷ after))
  unfolding run_agent shut_down
  run_agent-delivers before after token result s handler left handlers ran at c kept e =
      let turns = before ++ completed token result ∷ after in
      let (answered, many) = run_agent-IsAnswered texts h turns handlers e in
      let (last, whole, ends) = >>=-eq-ok (run_turns texts h turns (new_agent h)) _ e in
      let later = run_turns-append before (completed token result ∷ after) _ s last ran whole in
      let (next, first, rest) = run_turns-next (completed token result) after s last later in
      let done = drop_handler texts h (set_result texts h result handler) in
      let there : Has done next.ended =
        subst (Has done)
          (sym (complete_request-ended token result handler left s next at (turned first)))
          (inl refl) in
      let kept_there = run_turns-ended after next last done rest there in
      (
        (
          done,
          subst (Has done) (ok-eq ends) (
              Has-append_right done (map (λ entry. drop_handler texts h entry.1) last.requests)
                last.ended kept_there),
          drop_handler-delivered result handler c kept,
        ),
        answered,
        many,
      )
    where
      run_turns-next :
          (t : Turn texts h) (more : List (Turn texts h)) (s s' : Agent h)
          → run_turns texts h (t ∷ more) s ≡ ok s'
          → (mid : Agent h) × (turn texts h t s ≡ ok mid) × (run_turns texts h more mid ≡ ok s')
      run_turns-next t more s s' e = unfold run_turns in >>=-eq-ok (turn texts h t s) _ e

      turned :
          {mid : Agent h}
          → turn texts h (completed token result) s ≡ ok mid
          → complete_request texts h token result s ≡ ok mid
      turned f = unfold turn in f
