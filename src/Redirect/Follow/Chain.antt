-- ===== src/Redirect/Follow/Chain.antt =====
-- Whole runs of src/redirect.rs: the chain of the requests that are sent, and how it ends.
use isahc.Prelude.{
  ℕ, zero, suc, ◌+◌, ◌≤◌, ◌≡◌, refl, ap, subst, ◌⊎◌, inl, inr, Bool, false, Option, none, some,
  List, [], ◌∷◌, length, arith,
}
use isahc.Prelude.Outcome.{Outcome, ok, err, panic, Outcome-cases}
use isahc.Http.{Uri, HeaderMap, HeaderLaws}
use isahc.Error.{ErrorKind, too_many_redirects, request_body_not_rewindable}
use isahc.Body.{reset}
use isahc.Request.{Request, Response}
use isahc.Redirect.Uris.{Urls}
use isahc.Redirect.Follow.{body_or_default, get_redirect_location, follow}
use isahc.Redirect.Follow.Hops.{Hop, handle-Hop}

module _ (urls : Urls) (h : HeaderMap)
    (send : List (Request h) → Request h → Outcome ErrorKind (Response h)) where
  -- `next` follows the redirect that the answer to `last` is, the answer given after `before`.
  abbrev pub Followed : Bool → List (Request h) → Request h → Request h → Type 0
  Followed auto_referer before last next =
      (response : Response h) × (location : Uri) × (send before last ≡ ok response)
      × (get_redirect_location urls h last.uri response ≡ some location)
      × Hop urls h auto_referer last.uri last response location next

  -- The requests that were sent, the last one first: the first of all is the given one, and each
  -- follows the redirect that answers the one before it.
  abbrev pub Chain : Bool → Request h → List (Request h) → Type 0
  Chain auto_referer origin [] = ⊥
  Chain auto_referer origin (first ∷ []) = first ≡ origin
  Chain auto_referer origin (next ∷ last ∷ before) =
      Followed auto_referer before last next × Chain auto_referer origin (last ∷ before)

  -- How a run ends after `last` was sent, the last of `count` requests.
  abbrev pub Ending : ℕ → ℕ → List (Request h) → Request h → Outcome ErrorKind (Response h) → Type 0
  Ending limit count before last (ok result) =
      (response : Response h) × (send before last ≡ ok response)
      × (get_redirect_location urls h last.uri response ≡ none)
      × (result ≡ record response { effective_uri = some last.uri })
  Ending limit count before last (err kind) =
      (send before last ≡ err kind)
      ⊎ ((response : Response h) × (location : Uri) × (send before last ≡ ok response)
          × (get_redirect_location urls h last.uri response ≡ some location)
          × (((kind ≡ too_many_redirects) × (count ≡ suc limit))
              ⊎ ((kind ≡ request_body_not_rewindable)
                  × ((reset (body_or_default response.request_body)).0 ≡ false))))
  Ending limit count before last panic = send before last ≡ panic

  pub record Ended (auto_referer : Bool) (limit : ℕ) (origin : Request h)
      (run : Option (List (Request h) × Outcome ErrorKind (Response h))) : Type 0 where
    pub before : List (Request h)
    pub last : Request h
    pub outcome : Outcome ErrorKind (Response h)
    pub ran : run ≡ some (last ∷ before, outcome)
    pub chain : Chain auto_referer origin (last ∷ before)
    pub bound : length before ≤ limit
    pub ending : Ending limit (suc (length before)) before last outcome

  module _ (laws : HeaderLaws h) where
    pub follow-Ended :
        (auto_referer : Bool) (limit fuel count : ℕ) (before : List (Request h))
        (origin request : Request h)
        → count + fuel ≡ suc limit
        → count ≤ limit
        → length before ≡ count
        → Chain auto_referer origin (request ∷ before)
        → Ended auto_referer limit origin
            (follow urls h send auto_referer limit fuel count before request.uri request)
    unfolding follow
    follow-Ended auto_referer limit zero count before origin request f c l chain =
        absurd (omega arith)
    follow-Ended auto_referer limit (suc fuel) count before origin request f c l chain =
        elim (Outcome-cases (send before request)) [
          | inl (response, s) ↦
              elim (handle-Hop urls h laws auto_referer limit count request.uri request response) [
                | inl (none_left, e) ↦
                    ends (ok (record response { effective_uri = some request.uri }))
                      (rw (follow, s, e) refl) (response, s, none_left, refl)
                | inr (location, there, inl (over, e)) ↦
                    ends (err too_many_redirects) (rw (follow, s, e) refl)
                      (inr (response, location, s, there, inl (refl, omega arith)))
                | inr (location, there, inr (inl (under, stuck, e))) ↦
                    ends (err request_body_not_rewindable) (rw (follow, s, e) refl)
                      (inr (response, location, s, there, inr (refl, stuck)))
                | inr (location, there, inr (inr (under, next, hop, e))) ↦
                    rw (follow, s, e)
                      (subst
                        (λ (u : Uri). Ended auto_referer limit origin (
                          follow urls h send auto_referer limit fuel (suc count) (request ∷ before)
                            u next))
                        hop.uri
                        (follow-Ended auto_referer limit fuel (suc count) (request ∷ before) origin
                          next (omega arith) (omega arith) (ap suc l)
                          ((response, location, s, there, hop), chain)))
              ]
          | inr (inl (kind, s)) ↦ ends (err kind) (rw (follow, s) refl) (inl s)
          | inr (inr s) ↦ ends panic (rw (follow, s) refl) s
        ]
      where
        ends :
            (outcome : Outcome ErrorKind (Response h))
            → follow urls h send auto_referer limit (suc fuel) count before request.uri request
              ≡ some (request ∷ before, outcome)
            → Ending limit (suc (length before)) before request outcome
            → Ended auto_referer limit origin
                (follow urls h send auto_referer limit (suc fuel) count before request.uri request)
        ends outcome ran ending = record {
          before = before;
          last = request;
          outcome = outcome;
          ran = ran;
          chain = chain;
          bound = omega arith;
          ending = ending;
        }
