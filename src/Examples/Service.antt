-- ===== src/Examples/Service.antt =====
-- Requests on the sample site, from the factory to the calls on the builder.
use nozomi.Common.{
  ℕ, ◌+◌, ◌≡◌, refl, ◌↔◌, some, [], ◌∷◌, length, All, codes, str_eq, Result, ok, ◌>>=◌,
}
use native.Mathlib.Decide.{ℕ_discrete}
use nozomi.Libs.Sample.{chain, sample, SampleMessage, blank_message}
use nozomi.Http.{Request, Response, response_of_status, get_method_and_path}
use nozomi.Routing.Match.{IsMatched, accepts, Handler, Started, returned_count, made_count}
use nozomi.Routing.Router.{get_error_handler}
use nozomi.Routing.Static.{make_static_route}
use nozomi.Routing.Router.Priority.{by_priority}
use nozomi.Routing.Router.Building.{make_router_of}
use nozomi.Routing.Factory.{make_factory, on_request, streaming_handler}
use nozomi.Service.Unmatched.{unmatched-IsAnswered, IsErrorStatus}
use nozomi.Service.Answered.{IsAnswered}
use nozomi.Service.Streamed.{streaming-Started}
use nozomi.Service.Matched.{static-IsAnswered, route-IsAnswered}
use nozomi.Routing.Params.{Values}
use nozomi.Routing.Params.Conversions.{IsConversion}
use nozomi.Examples.Patterns.{
  user_args, user_route, user_regex, show_user, user_seven, seven_matches, user_parsed, user_made,
  make_stream, set_stream, stream_route, stream_made,
}
use nozomi.Examples.Laws.{sample_buffers}
use nozomi.Examples.Futures.{Yields, sample_futures}
use nozomi.Examples.Requests.{served}
use nozomi.Examples.Routes.{home}

abbrev missing : SampleMessage
missing = record blank_message { path = codes "/missing" }

missing-missed : All (λ r. ¬ IsMatched sample missing r) (by_priority sample (home ∷ []))
unfolding make_static_route get_method_and_path str_eq
missing-missed = ((λ e. cc e), tt)

abbrev custom : Handler sample
custom request = ok (sample.make_future (Response sample) (response_of_status sample 404))

abbrev asked_home : SampleMessage
asked_home = record blank_message { path = codes "/" }

abbrev greeting : Request sample → Unit {0} → Result (sample.Future (Response sample))
greeting request _ = ok (sample.make_future (Response sample) (response_of_status sample 200))

static-IsAnswered_example :
    IsAnswered sample Yields served
      (make_router_of sample [] (home ∷ []))
      tt
      3
      asked_home
      (chain (codes "ab" ∷ []) ∷ [])
      (λ request. greeting request tt)
unfolding make_static_route get_method_and_path accepts ℕ_discrete
static-IsAnswered_example =
    static-IsAnswered sample sample_buffers Yields sample_futures served [] (home ∷ []) [] [] tt 3
      asked_home (chain (codes "ab" ∷ []) ∷ []) (codes "/") (0 ∷ []) greeting refl tt refl refl

seven-missed : All (λ r. ¬ IsMatched sample user_seven r) (home ∷ [])
unfolding make_static_route get_method_and_path str_eq
seven-missed = ((λ e. cc e), tt)

route-IsAnswered_example :
    (values : Result (Values sample user_args)) × IsConversion sample user_args seven_matches values
    × IsAnswered sample Yields served
        (make_router_of sample [] (user_route ∷ home ∷ []))
        tt
        3
        user_seven
        []
        (λ request. values >>= show_user request)
unfolding make_static_route get_method_and_path accepts ℕ_discrete
route-IsAnswered_example =
    route-IsAnswered sample sample_buffers Yields sample_futures served [] (user_route ∷ home ∷ [])
      (home ∷ []) [] tt 3 user_seven [] (codes "/user/{{i}}") (0 ∷ []) user_args show_user
      user_route user_regex _ seven_matches user_parsed user_made refl seven-missed refl refl

unmatched-IsAnswered_example :
    let router = make_router_of sample ((404, custom) ∷ []) (home ∷ []) in
    (code : ℕ) × IsErrorStatus sample missing (by_priority sample (home ∷ [])) code
    × IsAnswered sample Yields served router tt 3 missing [] (get_error_handler sample router code)
unfolding make_static_route
unmatched-IsAnswered_example =
    unmatched-IsAnswered sample Yields sample_buffers sample_futures served ((404, custom) ∷ [])
      (home ∷ []) tt 3 missing [] missing-missed

-- A streaming route over the same pattern, whose handler adds the number that it is given.
streaming-Started_example :
    (values : Result (Values sample user_args)) × (s : Started sample) × IsConversion sample
      user_args seven_matches values
    × (on_request sample
          (make_factory sample served (make_router_of sample [] (stream_route ∷ [])))
          user_seven
        ≡ streaming_handler s)
    × ((ready : ℕ)
        → (s.returned ≡ some ready)
          ↔ ((h : ℕ) × (make_stream tt ≡ ok (some h)) × ((values >>= set_stream h) ≡ ok ready)))
    × (returned_count sample s + length s.deleted ≡ made_count sample (make_stream tt))
unfolding get_method_and_path accepts ℕ_discrete
streaming-Started_example =
    streaming-Started sample served [] (stream_route ∷ []) [] [] user_seven (codes "/user/{{i}}")
      (0 ∷ []) user_args make_stream set_stream stream_route user_regex _ seven_matches user_parsed
      stream_made refl tt refl refl
