-- ===== src/Redirect/Follow/Runs.antt =====
-- The runs of `RedirectInterceptor::intercept` of src/redirect.rs: whether they end, and how.
use isahc.Prelude.{
  ℕ, suc, ◌≤◌, ◌≡◌, ◌≢◌, refl, sym, subst, ◌∙◌, ◌⊎◌, inl, inr, some, List, [], ◌∷◌, length, arith,
  some-eq,
}
use isahc.Prelude.Outcome.{Outcome}
use isahc.Http.{HeaderMap, HeaderLaws}
use isahc.Error.{ErrorKind}
use isahc.Config.{RedirectPolicy, no_redirects, follow_redirects, limit_redirects}
use isahc.Request.{Request, Response}
use isahc.Redirect.Uris.{Urls}
use isahc.Redirect.Follow.{intercept, limit_of, policy_of, auto_referer_of, send_once, follow_all}
use isahc.Redirect.Follow.Chain.{Chain, Ending, Ended, follow-Ended}

-- How many requests a policy lets the interceptor send.
abbrev pub most_sends : RedirectPolicy → ℕ
most_sends no_redirects = 1
most_sends policy = suc (limit_of policy)

most_sends-eq : (p : RedirectPolicy) → p ≢ no_redirects → most_sends p ≡ suc (limit_of p)
most_sends-eq no_redirects n = absurd (n refl)
most_sends-eq follow_redirects n = refl
most_sends-eq (limit_redirects limit) n = refl

Policy-cases : (p : RedirectPolicy) → (p ≡ no_redirects) ⊎ (p ≢ no_redirects)
Policy-cases no_redirects = inl refl
Policy-cases follow_redirects = inr (λ e. cc)
Policy-cases (limit_redirects limit) = inr (λ e. cc)

module _ (urls : Urls) (h : HeaderMap)
    (send : List (Request h) → Request h → Outcome ErrorKind (Response h)) where
  abbrev RunEnding : ℕ → List (Request h) × Outcome ErrorKind (Response h) → Type 0
  RunEnding limit ([], outcome) = Unit
  RunEnding limit (last ∷ before, outcome) =
      Ending urls h send limit (suc (length before)) before last outcome

  follow_all-Ended :
      HeaderLaws h
      → (request : Request h) (limit : ℕ)
      → Ended urls h send
          (auto_referer_of h request)
          limit
          request
          (follow_all urls h send request limit)
  unfolding follow_all
  follow_all-Ended laws request limit =
      follow-Ended urls h send laws (auto_referer_of h request) limit (suc limit) 0 [] request
        request (omega arith) (omega arith) refl refl

  intercept-follow_all :
      (request : Request h)
      → policy_of h request ≢ no_redirects
      → intercept urls h send request
        ≡ follow_all urls h send request (limit_of (policy_of h request))
  unfolding intercept
  intercept-follow_all request follows =
      elim (policy_of h request)
          as (λ p.
            p ≢ no_redirects
            → (elim p [
              | no_redirects ↦ some (send_once urls h send request)
              | follow_redirects ↦ follow_all urls h send request (limit_of follow_redirects)
              | limit_redirects limit ↦
                  follow_all urls h send request (limit_of (limit_redirects limit))
            ])
              ≡ follow_all urls h send request (limit_of p)) [
                | no_redirects ↦ λ n. absurd (n refl)
                | follow_redirects ↦ λ n. refl
                | limit_redirects limit ↦ λ n. refl
              ]
        follows

  intercept-Ended :
      HeaderLaws h
      → (request : Request h) → policy_of h request ≢ no_redirects
      → Ended urls h send
          (auto_referer_of h request)
          (limit_of (policy_of h request))
          request
          (intercept urls h send request)
  intercept-Ended laws request follows =
      rw (intercept-follow_all request follows)
        (follow_all-Ended laws request (limit_of (policy_of h request)))

  intercept_once :
      (request : Request h)
      → policy_of h request ≡ no_redirects
      → intercept urls h send request ≡ some (send_once urls h send request)
  unfolding intercept
  intercept_once request once = rw (intercept, once) refl

  -- The interceptor comes to an end, whatever the servers answer: with no redirects allowed it sends
  -- one request, and with a limit at most one more than the limit.
  pub intercept-eq-some :
      HeaderLaws h
      → (request : Request h)
      → (sent : List (Request h)) × (outcome : Outcome ErrorKind (Response h)) × (intercept urls h
            send request
          ≡ some (sent, outcome))
        × (length sent ≤ most_sends (policy_of h request))
  unfolding send_once
  intercept-eq-some laws request = elim (Policy-cases (policy_of h request)) [
    | inl once ↦
        (request ∷ [], (send_once urls h send request).1, intercept_once request once, ground arith)
    | inr follows ↦
        let run = intercept-Ended laws request follows in
        (
          run.last ∷ run.before,
          run.outcome,
          run.ran,
          omega (arith, run.bound, most_sends-eq _ follows),
        )
  ]

  -- The requests that are sent make a chain from the one that was given: each goes to the address
  -- that the answer to the last one redirects to, with the method, the headers, the configuration and
  -- the body that the hop gives it.
  pub intercept-Chain :
      HeaderLaws h
      → (request : Request h) (sent : List (Request h)) (outcome : Outcome ErrorKind (Response h))
      → intercept urls h send request ≡ some (sent, outcome)
      → Chain urls h send (auto_referer_of h request) request sent
  unfolding send_once
  intercept-Chain laws request sent outcome ran = elim (Policy-cases (policy_of h request)) [
    | inl once ↦
        subst (λ run. Chain urls h send (auto_referer_of h request) request run.0)
          (some-eq (sym (intercept_once request once) ∙ ran)) refl
    | inr follows ↦
        let run = intercept-Ended laws request follows in
        subst (λ r. Chain urls h send (auto_referer_of h request) request r.0)
          (some-eq (sym run.ran ∙ ran)) run.chain
  ]

  -- How a run that follows redirects ends: with a response that is no redirect, marked with the
  -- address of the last request; with the error of the rest of the chain; with the error that says
  -- that the limit is used up, or that the body of a redirected request cannot be rewound; or with a
  -- panic of the rest of the chain, and of no other code.
  pub intercept-Ending :
      HeaderLaws h
      → (request last : Request h) (before : List (Request h))
        (outcome : Outcome ErrorKind (Response h))
      → policy_of h request ≢ no_redirects
      → intercept urls h send request ≡ some (last ∷ before, outcome)
      → Ending urls h send
          (limit_of (policy_of h request))
          (suc (length before))
          before
          last
          outcome
  intercept-Ending laws request last before outcome follows ran =
      let run = intercept-Ended laws request follows in
      subst (RunEnding (limit_of (policy_of h request))) (some-eq (sym run.ran ∙ ran)) run.ending
