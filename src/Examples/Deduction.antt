-- ===== src/Examples/Deduction.antt =====
-- A handler of a number and an optional text, and one that does not take a request first.
use nozomi.Common.{◌≡◌, refl, none, [], ◌∷◌, codes, ok}
use nozomi.Libs.Sample.{sample}
use nozomi.Http.{Response, response_of_status}
use nozomi.Routing.Params.{ArgType, int64_type}
use nozomi.Routing.Deduction.{argument, Callable, make_route_of_callable}

abbrev unfit : Callable sample
unfit = record {
  types = argument (ArgType.plain int64_type) ∷ [];
  call = λ _. ok (sample.make_future (Response sample) (response_of_status sample 200));
}

unfit_refused : make_route_of_callable sample (codes "/{{i}}") (0 ∷ []) unfit ≡ none
unfolding make_route_of_callable
unfit_refused = refl
