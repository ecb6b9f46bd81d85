-- ===== src/Examples/Routes.antt =====
-- Routes and the router: a static route, a static streaming route and a request.
use nozomi.Common.{
  ℕ, ◌+◌, ◌≡◌, refl, Option, some, List, [], ◌∷◌, codes, str_eq, external, Result, ok, err, [], ℕ,
  ◌+◌, ◌≡◌, refl, Option, some, List, ◌∷◌, codes, str_eq, external, Result, ok, err,
}
use native.Mathlib.Decide.{ℕ_discrete}
use nozomi.Libs.Sample.{sample, SampleMessage, blank_message}
use nozomi.Http.{Response, response_of_status, get_method_and_path}
use nozomi.Routing.Match.{UserHandler, plain, streaming, BaseRoute, method_not_matched, accepts}
use nozomi.Routing.Static.{make_static_route}
use nozomi.Routing.Router.{make_router, get_handler}
use nozomi.Routing.Router.Answers.{Answer, get_handler-Answer}
use nozomi.Routing.Router.Priority.{by_priority}

abbrev pub greet : UserHandler sample (Unit {0})
greet =
    plain (λ request _. ok (sample.make_future (Response sample) (response_of_status sample 200)))

abbrev stream : UserHandler sample (Unit {0})
stream = streaming (λ _. ok (some 7)) (λ h _. ok (h + 1))

abbrev pub home : BaseRoute sample
home = make_static_route sample (codes "/") (0 ∷ []) greet

abbrev files : BaseRoute sample
files = make_static_route sample (codes "/files") (0 ∷ 1 ∷ []) stream

abbrev site : List (BaseRoute sample)
site = home ∷ files ∷ []

abbrev post_home : SampleMessage
post_home = record blank_message { verb = some 1; path = codes "/" }

get_handler-Answer_example :
    Answer sample
      (make_router sample [] site)
      post_home
      (by_priority sample site)
      (get_handler sample (make_router sample [] site) post_home)
get_handler-Answer_example = get_handler-Answer sample [] site post_home

post_home_result :
    (get_handler sample (make_router sample [] site) post_home).result ≡ method_not_matched
unfolding get_handler make_router make_static_route get_method_and_path accepts ℕ_discrete str_eq
post_home_result = refl

abbrev creation : Result (Option ℕ)
creation = ok (some 7)

abbrev refuse : ℕ → Result ℕ
refuse h = err (external (codes "no"))
