-- ===== src/Routing/Dynamic/Arguments.antt =====
-- From a documented pattern to the arguments that its handler is called with.
use nozomi.Common.{
  ◌≡◌, refl, ◌∙◌, ◌≢◌, ◌⊎◌, true, false, some, List, map, All, Str, runtime_error, Result, ok, err,
  ◌>>=◌,
}
use nozomi.Libs.{Libs}
use nozomi.Http.{Request, Response, get_method_and_path}
use nozomi.Routing.Match.{
  RouteMatch, route_matched, UserHandler, plain, accepts, match_with, match_streaming, start,
  streaming,
}
use nozomi.Routing.Params.{ArgType, Values, to_route_param_type, get_all_args}
use nozomi.Routing.Params.Conversions.{
  IsInfallible, AreArguments, IsConversion, get_all_args-IsConversion, infallible_converts,
}
use nozomi.Routing.Pattern.{route_parser}
use nozomi.Routing.Pattern.Template.{Template, write, expand, IsPlain, PrintsDigits}
use nozomi.Routing.Pattern.Parsing.{ReportsAll, HasRegexValue, types_of, parse_route_pattern-write}
use nozomi.Routing.Dynamic.{handle, make_match, make_route}
use nozomi.Routing.Dynamic.Laws.{make_route_lem}

module _ (L : Libs) where
  -- A route over a documented pattern is accepted exactly when its parameters have the types of the
  -- handler's arguments, in order; it then matches by the expression in which every parameter has
  -- been replaced in place. Any other handler is refused by a `runtime_error`.
  -- It is assumed that no `{{` begins in the plain texts, values and consumed texts, that each value
  -- compiles, that numbers are printed in digits, that the iterator reports the parameters in order, and
  -- that the expression compiles.
  pub make_route-write :
      (template : Template) (tail : Str) (parser regex : L.Regex) (methods : List L.Method)
      (args : List ArgType) (user : UserHandler L (Values L args))
      → PrintsDigits L
      → L.compile route_parser ≡ ok parser
      → ReportsAll L (L.iterate parser (write template tail)) template
      → All IsPlain template
      → All (HasRegexValue L) template
      → L.compile (expand L 0 template tail) ≡ ok regex
      → ((types_of L template ≡ map to_route_param_type args)
          × (make_route L (write template tail) methods args user
              ≡ ok (record {
                original_pattern = write template tail;
                methods = methods;
                is_static_route = false;
                handler = handle L args regex methods user;
              })))
        ⊎ ((types_of L template ≢ map to_route_param_type args)
            × ((text : Str) × (make_route L (write template tail) methods args user
                  ≡ err (runtime_error text))))
  make_route-write template tail parser regex methods args user digits compiled reports clear valid
        expanded =
      make_route_lem L (write template tail) methods args user regex (types_of L template) (
        parse_route_pattern-write L template tail parser digits compiled reports clear valid
        ∙ (rw expanded))

  -- A match that hands converted values to the user's handler, or to the streaming handler that it
  -- makes; an exception stands for the call.
  abbrev pub run_with :
      (args : List ArgType) → UserHandler L (Values L args) → Result (Values L args) → RouteMatch L
  run_with args (plain f) values = match_with L route_matched (λ request. values >>= f request)
  run_with args (streaming make set) values =
      match_streaming L route_matched (λ _. start L (make tt) (λ h. values >>= set h))

  -- When the path and the method of a request match, the match hands the user's handler, or the
  -- streaming handler that it makes, the values to which the groups `__0`, `__1`, and so on, convert. An
  -- integer that does not convert is the largest one; an optional that was not captured is empty; but
  -- the exception of the first double that does not convert is thrown in place of the call, and makes a
  -- streaming match delete what it has made.
  pub handle-runs :
      (args : List ArgType) (regex : L.Regex) (methods : List L.Method)
      (user : UserHandler L (Values L args)) (message : L.Message) (matches : L.Matches)
      → L.regex_match regex (get_method_and_path L message).1 ≡ some matches
      → accepts L methods (get_method_and_path L message).0 ≡ true
      → (values : Result (Values L args)) × IsConversion L args matches values
        × (handle L args regex methods user message ≡ run_with args user values)
  unfolding handle
  handle-runs args regex methods user message matches matched accepted = (
    get_all_args L args 0 matches,
    get_all_args-IsConversion L args matches,
    rw (matched, accepted, handle) (make_match_runs user),
  )
    where
      make_match_runs :
          (user : UserHandler L (Values L args))
          → make_match L args user matches ≡ run_with args user (get_all_args L args 0 matches)
      make_match_runs (plain f) = refl
      make_match_runs (streaming make set) = refl

  -- When no parameter is a double, the match calls the user's handler.
  pub handle-calls :
      (args : List ArgType) (regex : L.Regex) (methods : List L.Method)
      (f : Request L → Values L args → Result (L.Future (Response L))) (message : L.Message)
      (matches : L.Matches)
      → All (IsInfallible L) args
      → L.regex_match regex (get_method_and_path L message).1 ≡ some matches
      → accepts L methods (get_method_and_path L message).0 ≡ true
      → (vs : Values L args) × AreArguments L args 0 matches vs
        × (handle L args regex methods (plain f) message
            ≡ match_with L route_matched (λ request. f request vs))
  handle-calls args regex methods f message matches infallible matched accepted =
      calls (handle-runs args regex methods (plain f) message matches matched accepted)
    where
      calls :
          (values : Result (Values L args)) × IsConversion L args matches values
            × (handle L args regex methods (plain f) message ≡ run_with args (plain f) values)
          → (vs : Values L args) × AreArguments L args 0 matches vs
            × (handle L args regex methods (plain f) message
                ≡ match_with L route_matched (λ request. f request vs))
      calls (ok vs, are, e) = (vs, are, e)
      calls (err x, fails, e) = absurd (infallible_converts L args 0 matches x infallible fails)
