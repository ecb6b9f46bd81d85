-- ===== src/Routing/Dynamic.antt =====
-- Route.h and Route-inl.h: routes that match by a regular expression and hand what it captured to
-- their handler.
pub mod Laws
pub mod Arguments
use nozomi.Common.{
  [], ℕ, ◌+◌, false, not, none, some, List, ◌∷◌, ◌++◌, ◌==◌, if◌then◌else◌, holds, length, Str,
  codes, Exception, runtime_error, Result, ok, err, ◌>>=◌, ◌>>◌, pos,
}
use nozomi.Libs.{Libs}
use nozomi.Http.{Request, get_method_and_path, Response}
use nozomi.Routing.Match.{
  RouteMatchResult, path_not_matched, method_not_matched, route_matched, RouteMatch, BaseRoute,
  UserHandler, plain, streaming, no_match, match_with, match_streaming, accepts, start,
}
use nozomi.Routing.Params.{
  RouteParamType, ArgType, Values, get_all_args, parse_function_parameters, to_string,
}
use nozomi.Routing.Pattern.{parse_route_pattern}

RouteParamType-discrete : Discrete RouteParamType
RouteParamType-discrete = hlevel

module _ (L : Libs) (args : List ArgType) where
  -- call_handler: the arguments are converted, then the handler is called.
  call_handler :
      (Request L → Values L args → Result (L.Future (Response L)))
      → L.Matches
      → Request L
      → Result (L.Future (Response L))
  call_handler f matches request = do values ← get_all_args L args 0 matches; f request values

  -- call_streaming_handler
  call_streaming_handler :
      (L.RequestHandler → Values L args → Result L.RequestHandler)
      → L.Matches
      → L.RequestHandler
      → Result L.RequestHandler
  call_streaming_handler set_request_args matches handler = do
    values ← get_all_args L args 0 matches
    set_request_args handler values

  -- RegexRouteMatchMaker, for both values of IsStreaming.
  make_match : UserHandler L (Values L args) → L.Matches → RouteMatch L
  unfolding call_handler call_streaming_handler
  make_match (plain f) matches = match_with L route_matched (call_handler f matches)
  make_match (streaming make set_request_args) matches =
      match_streaming L route_matched
        (λ _. start L (make tt) (call_streaming_handler set_request_args matches))

  -- Route::handler.
  pub handle : L.Regex → List L.Method → UserHandler L (Values L args) → L.Message → RouteMatch L
  unfolding make_match
  handle regex methods user message =
      let method_and_path = get_method_and_path L message in
      elim (L.regex_match regex method_and_path.1) [
        | none ↦ no_match L path_not_matched
        | some matches ↦
            if not (accepts L methods method_and_path.0)
            then no_match L method_not_matched
            else make_match user matches
      ]

module _ (L : Libs) where
  lines : List RouteParamType → Str
  lines [] = []
  lines (p ∷ ps) = to_string p ++ codes "\n" ++ lines ps

  count_error : Str → List RouteParamType → List RouteParamType → Exception
  unfolding lines
  count_error pattern pattern_params function_params = runtime_error (
      codes "Pattern parameter count != function parameter count ("
      ++ L.format_int (pos (length pattern_params))
      ++ codes " vs "
      ++ L.format_int (pos (length function_params))
      ++ codes ")\n"
      ++ codes "Pattern: "
      ++ pattern
      ++ codes "\n"
      ++ codes "Pattern parameters:\n"
      ++ lines pattern_params
      ++ codes "Function parameters:\n"
      ++ lines function_params)

  type_error : Str → ℕ → RouteParamType → RouteParamType → Exception
  type_error pattern i pattern_param function_param = runtime_error (
      codes "Pattern: "
      ++ pattern
      ++ codes "\nPattern parameter "
      ++ L.format_int (pos i)
      ++ codes " ("
      ++ to_string pattern_param
      ++ codes ") does not match function parameter "
      ++ L.format_int (pos i)
      ++ codes " ("
      ++ to_string function_param
      ++ codes ")")

  -- The last loop of the constructor, from index `i` on; both lists have one length.
  compare_params : Str → List RouteParamType → List RouteParamType → ℕ → Result (Unit {0})
  compare_params pattern (p ∷ ps) (f ∷ fs) i =
      if not (holds (RouteParamType-discrete p f))
      then err (type_error pattern i p f)
      else compare_params pattern ps fs (i + 1)
  compare_params pattern [] _ i = ok tt
  compare_params pattern (p ∷ ps) [] i = ok tt

  -- The checks of the constructor.
  check_params : Str → List RouteParamType → List RouteParamType → Result (Unit {0})
  check_params pattern pattern_params function_params =
      if not (length pattern_params == length function_params)
      then err (count_error pattern pattern_params function_params)
      else compare_params pattern pattern_params function_params 0

  -- The constructor of Route, which every overload of make_route and make_streaming_route calls.
  pub make_route :
      Str
      → List L.Method
      → (args : List ArgType) → UserHandler L (Values L args)
      → Result (BaseRoute L)
  unfolding handle check_params compare_params
  make_route pattern methods args user = do
    regex_and_params ← parse_route_pattern L pattern
    check_params pattern regex_and_params.1 (parse_function_parameters args)
    ok (record {
      original_pattern = pattern;
      methods = methods;
      is_static_route = false;
      handler = handle L args regex_and_params.0 methods user;
    })
