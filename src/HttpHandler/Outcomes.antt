-- ===== src/HttpHandler/Outcomes.antt =====
-- What the chain of futures of `onEOM` may answer, and when it does.
use nozomi.Common.{ok_inj, ◌≡◌, sym, subst, ◌⊎◌, inl, inr, codes, Exception, Result, ok, err}
use nozomi.Libs.{Libs}
use nozomi.Libs.Futures.{CallYields, FutureLaws}
use nozomi.Http.{Request, Response, response_of_text}
use nozomi.Routing.Router.{get_error_handler}
use nozomi.HttpHandler.{HttpHandler, answer}

module _ (L : Libs) (Yields : (A : Type 0) → L.Future A → Result A → Type 0) where
  -- What a call of a handler completes with.
  abbrev pub Answers : Result (L.Future (Response L)) → Result (Response L) → Type 0
  Answers = CallYields L Yields (Response L)

  -- The origins of a response, for a handler and a request.
  pub data Outcome (h : HttpHandler L) (request : Request L) : Response L → Type 0 where
    handled : (r : Response L) → Answers (h.handler request) (ok r) → Outcome h request r
    failed :
        (e : Exception) (r : Response L)
        → Answers (h.handler request) (err e)
        → Answers (get_error_handler L h.router 500 request) (ok r)
        → Outcome h request r
    timed_out :
        (r : Response L)
        → Answers (get_error_handler L h.router 503 request) (ok r)
        → Outcome h request r
    unknown_error :
        (e : Exception)
        → ((x : Exception) × Answers (h.handler request) (err x)
            × Answers (get_error_handler L h.router 500 request) (err e))
          ⊎ Answers (get_error_handler L h.router 503 request) (err e)
        → Outcome h request (response_of_text L 500 (codes "Unknown error"))

  -- The future of the user's handler, with the 500 handler in place of an exception.
  abbrev recovered : HttpHandler L → Request L → L.Future (Response L)
  recovered h request =
      L.on_error (Response L) (L.via (Response L) h.io_executor (λ _. h.handler request))
        (λ e. get_error_handler L h.router 500 request)

  module _ (F : FutureLaws L Yields) where
    recovered-Outcome :
        (h : HttpHandler L) (request : Request L) (r : Response L)
        → Yields (Response L) (recovered h request) (ok r)
        → Outcome h request r
    recovered-Outcome h request r y = elim (F.on_error-yields _ _ _ _ y) [
      | inl (a, started, same) ↦
          subst (Outcome h request) (sym (ok_inj same)) (handled a (F.via-yields _ _ _ _ started))
      | inr (e, started, recovered) ↦ failed e r (F.via-yields _ _ _ _ started) recovered
    ]

    recovered-err :
        (h : HttpHandler L) (request : Request L) (e : Exception)
        → Yields (Response L) (recovered h request) (err e)
        → (x : Exception) × Answers (h.handler request) (err x)
          × Answers (get_error_handler L h.router 500 request) (err e)
    recovered-err h request e y = elim (F.on_error-yields _ _ _ _ y) [
      | inl (a, started, same) ↦ cc
      | inr (x, started, recovered) ↦ (x, F.via-yields _ _ _ _ started, recovered)
    ]

    -- The response future never fails. It completes with the user's response; with that of the 500
    -- handler, if the user's handler failed; with that of the 503 handler; or with "Unknown error",
    -- if the error handler that was used failed itself.
    -- It is assumed that futures behave as documented.
    pub answer-Outcome :
        (h : HttpHandler L) (request : Request L) (result : Result (Response L))
        → Yields (Response L) (answer L h request) result
        → (r : Response L) × (result ≡ ok r) × Outcome h request r
    unfolding answer
    answer-Outcome h request result y = elim (F.on_error-yields _ _ _ _ y) [
      | inl (r, timed, same) ↦ (
        r,
        same,
        elim (F.on_timeout-yields _ _ _ _ _ timed) [
          | inl recovered ↦ recovered-Outcome h request r recovered
          | inr late ↦ timed_out r late
        ],
      )
      | inr (e, timed, last) ↦ (
        response_of_text L 500 (codes "Unknown error"),
        F.make_future-yields _ _ _ last,
        unknown_error e (elim (F.on_timeout-yields _ _ _ _ _ timed) [
          | inl recovered ↦ inl (recovered-err h request e recovered)
          | inr late ↦ inr late
        ]),
      )
    ]

    caught :
        (f : L.Future (Response L)) (result : Result (Response L))
        → Yields (Response L) f result
        → (r : Response L) × Yields
            (Response L)
            (L.on_error (Response L) f (λ e.
              ok (L.make_future (Response L) (response_of_text L 500 (codes "Unknown error")))))
            (ok r)
    caught f (ok r) y = (r, F.yields-on_error_ok _ _ _ r y)
    caught f (err e) y = (
      response_of_text L 500 (codes "Unknown error"),
      F.yields-on_error_err _ _ _ e _ y (F.yields-make_future _ _),
    )

    -- A response is sure to come when the 503 handler completes, with a response or an exception,
    -- even if the user's handler never does.
    -- It is assumed that futures behave as documented.
    pub answer_completes :
        (h : HttpHandler L) (request : Request L) (late : Result (Response L))
        → Answers (get_error_handler L h.router 503 request) late
        → (r : Response L) × Yields (Response L) (answer L h request) (ok r)
    unfolding answer
    answer_completes h request late y =
        let (result, timed) =
          F.yields-on_timeout (Response L) (recovered h request) h.timeout
            (λ _. get_error_handler L h.router 503 request) late y in
        caught _ result timed
