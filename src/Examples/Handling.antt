-- ===== src/Examples/Handling.antt =====
-- A request that is gathered from two buffers, and whose handler never completes.
use nozomi.Common.{none, ◌≡◌, refl, some, [], ◌∷◌, codes, ok, pos}
use nozomi.Libs.Sample.{chain, sample, never, blank_message}
use nozomi.Http.{Request, Response, make_request, response_of_status}
use nozomi.Routing.Match.{Handler}
use nozomi.Routing.Router.{Router, make_router, get_error_handler}
use nozomi.HttpHandler.{HttpHandler, make_http_handler, answer}
use nozomi.HttpHandler.Gathering.{bytes, gather, gather-request}
use nozomi.HttpHandler.Outcomes.{Outcome, answer-Outcome, answer_completes}
use nozomi.Examples.Laws.{sample_buffers}
use nozomi.Examples.Futures.{Yields, sample_futures}

abbrev waiting : Handler sample
waiting request = ok never

abbrev router : Router sample
router = make_router sample [] []

abbrev fresh : HttpHandler sample
fresh = make_http_handler sample (pos 20) router waiting none 3

abbrev request : Request sample
request = make_request sample blank_message (chain (codes "ab" ∷ []))

gather-request_example :
    (h : HttpHandler sample) × (request : Request sample) × (gather sample tt blank_message
        (chain (codes "ab" ∷ []) ∷ chain (codes "c" ∷ []) ∷ [])
        fresh
      ≡ some h)
    × (h.request ≡ some request)
    × (request.message ≡ blank_message)
    × (bytes sample request.body ≡ codes "abc")
    × (h.response ≡ some (answer sample fresh request, tt))
    × (h.sent ≡ [])
gather-request_example =
    gather-request sample sample_buffers (pos 20) router waiting none 3 tt blank_message
      (chain (codes "ab" ∷ []) ∷ chain (codes "c" ∷ []) ∷ [])

answer-Outcome_example :
    (r : Response sample) × (ok (response_of_status sample 503) ≡ ok r)
    × Outcome sample Yields fresh request r
unfolding answer make_http_handler get_error_handler make_router
answer-Outcome_example =
    answer-Outcome sample Yields sample_futures fresh request (ok (response_of_status sample 503))
      refl

answer_completes_example :
    (r : Response sample) × Yields (Response sample) (answer sample fresh request) (ok r)
unfolding answer make_http_handler get_error_handler make_router
answer_completes_example =
    answer_completes sample Yields sample_futures fresh request (ok (response_of_status sample 503))
      refl
