-- ===== src/Examples/Patterns.antt =====
-- Route patterns: the documented pattern `/user/{{i}}`, and two on which the program goes wrong.
use nozomi.Common.{
  Option, some, [], ℕ, zero, suc, ◌+◌, ◌/◌, ◌%◌, ◌≡◌, refl, ◌≢◌, ◌⊎◌, inl, inr, false, List, ◌∷◌,
  map, arith, ◌==◌, Bool-cases, All, Str, codes, str_eq, runtime_error, Result, ok, err,
}
use native.Mathlib.Decide.{ℕ_discrete}
use nozomi.Libs.Sample.{sample, SampleMessage, blank_message, SampleFuture, digits}
use nozomi.Http.{Request, Response, response_of_status, get_method_and_path}
use nozomi.Routing.Match.{streaming, BaseRoute, plain, accepts}
use nozomi.Routing.Params.{
  ArgType, int64_type, string_type, Values, to_route_param_type, RouteParamType,
}
use nozomi.Routing.Params
use nozomi.Routing.Pattern.{parse_route_pattern, route_parser, apply}
use nozomi.Routing.Pattern.Texts.{IsClosed, IsClosed-append, find, replace}
use nozomi.Routing.Pattern.Template.{Template, int_param, write, expand, PrintsDigits, IsPlain}
use nozomi.Routing.Pattern.Parsing.{types_of, parse_route_pattern-write, ReportsAll}
use nozomi.Routing.Dynamic.{handle, make_route}
use nozomi.Routing.Dynamic.Arguments.{make_route-write, handle-runs, run_with}
use nozomi.Routing.Params.Conversions.{IsConversion}

digits-IsClosed : (fuel n : ℕ) → IsClosed (digits fuel n)
unfolding digits
digits-IsClosed zero n = tt
digits-IsClosed (suc fuel) n = elim (Bool-cases (n == 0)) [
  | inl e ↦ rw e tt
  | inr e ↦ rw e (
      IsClosed-append (digits fuel (n / 10)) ((48 + n % 10) ∷ []) (digits-IsClosed fuel (n / 10))
        (omega arith))
]

pub sample_digits : PrintsDigits sample
sample_digits n = elim (Bool-cases (n == 0)) [
  | inl e ↦ rw e (omega arith)
  | inr e ↦ rw e (digits-IsClosed 20 n)
]

abbrev pub user_template : Template
user_template = (codes "/user/", int_param) ∷ []

user_reports :
    ReportsAll sample (sample.iterate route_parser (write user_template [])) user_template
unfolding str_eq
user_reports = (refl, tt)

user-IsPlain : All IsPlain user_template
user-IsPlain = omega arith

abbrev pub user_regex : Str
user_regex = expand sample 0 user_template []

user_regex_runs : user_regex ≡ codes "/user/(?<__0>[+-]?\\d+)"
user_regex_runs = refl

abbrev Reply : Type 0
Reply = Result (SampleFuture (Response sample))

abbrev pub show_user : Request sample → Values sample (Params.ArgType.plain int64_type ∷ []) → Reply
show_user request (id, _) =
    ok (sample.make_future (Response sample) (response_of_status sample 200))

make_route-write_example :
    ((types_of sample user_template
        ≡ map to_route_param_type (Params.ArgType.plain int64_type ∷ []))
      × (make_route sample
            (codes "/user/{{i}}")
            (0 ∷ [])
            (Params.ArgType.plain int64_type ∷ [])
            (plain show_user)
          ≡ ok (record {
            original_pattern = codes "/user/{{i}}";
            methods = 0 ∷ [];
            is_static_route = false;
            handler =
                handle sample
                  (Params.ArgType.plain int64_type ∷ [])
                  user_regex
                  (0 ∷ [])
                  (plain show_user);
          })))
    ⊎ ((types_of sample user_template
          ≢ map to_route_param_type (Params.ArgType.plain int64_type ∷ []))
        × ((text : Str) × (make_route sample
                (codes "/user/{{i}}")
                (0 ∷ [])
                (Params.ArgType.plain int64_type ∷ [])
                (plain show_user)
              ≡ err (runtime_error text))))
make_route-write_example =
    make_route-write sample user_template [] route_parser user_regex (0 ∷ [])
      (Params.ArgType.plain int64_type ∷ []) (plain show_user) sample_digits refl user_reports
      user-IsPlain (tt, tt) refl

abbrev pub user_args : List ArgType
user_args = Params.ArgType.plain int64_type ∷ []

abbrev pub user_route : BaseRoute sample
user_route = record {
  original_pattern = codes "/user/{{i}}";
  methods = 0 ∷ [];
  is_static_route = false;
  handler = handle sample user_args user_regex (0 ∷ []) (plain show_user);
}

pub user_parsed :
    parse_route_pattern sample (codes "/user/{{i}}")
    ≡ ok (user_regex, types_of sample user_template)
user_parsed =
    parse_route_pattern-write sample user_template [] route_parser sample_digits refl user_reports
      user-IsPlain (tt, tt)

pub user_made :
    make_route sample (codes "/user/{{i}}") (0 ∷ []) user_args (plain show_user) ≡ ok user_route
unfolding to_route_param_type
user_made =
    elim (make_route-write sample user_template [] route_parser user_regex (0 ∷ []) user_args
      (plain show_user) sample_digits refl user_reports user-IsPlain (tt, tt) refl) [
        | inl (_, made) ↦ made
        | inr (differ, _) ↦ absurd (differ refl)
      ]

abbrev pub make_stream : Unit {0} → Result (Option ℕ)
make_stream _ = ok (some 7)

abbrev pub set_stream : ℕ → Values sample user_args → Result ℕ
set_stream h (id, _) = ok (h + 1)

abbrev pub stream_route : BaseRoute sample
stream_route = record {
  original_pattern = codes "/user/{{i}}";
  methods = 0 ∷ [];
  is_static_route = false;
  handler = handle sample user_args user_regex (0 ∷ []) (streaming make_stream set_stream);
}

pub stream_made :
    make_route sample (codes "/user/{{i}}") (0 ∷ []) user_args (streaming make_stream set_stream)
    ≡ ok stream_route
unfolding to_route_param_type
stream_made =
    elim (make_route-write sample user_template [] route_parser user_regex (0 ∷ []) user_args
      (streaming make_stream set_stream) sample_digits refl user_reports user-IsPlain (tt, tt)
      refl) [ inl (_, made) ↦ made | inr (differ, _) ↦ absurd (differ refl) ]

abbrev pub user_seven : SampleMessage
user_seven = record blank_message { path = codes "/user/7" }

abbrev pub seven_matches : List (Str × Str)
seven_matches = (codes "__0", codes "7") ∷ []

seven_path : get_method_and_path sample user_seven ≡ (0, codes "/user/7")
unfolding get_method_and_path
seven_path = refl

handle-runs_example :
    (values : Result (Values sample user_args)) × IsConversion sample user_args seven_matches values
    × (handle sample user_args user_regex (0 ∷ []) (plain show_user) user_seven
        ≡ run_with sample user_args (plain show_user) values)
unfolding get_method_and_path accepts ℕ_discrete
handle-runs_example =
    handle-runs sample user_args user_regex (0 ∷ []) (plain show_user) user_seven seven_matches refl
      refl

-- The search for a parameter goes on inside the text that replaced the one before it. Here the
-- consumed text of the first parameter ends like the start of the second, and the second is replaced
-- there; its own place keeps the `{{i?:`.
misplaced :
    apply sample
      ((codes "{{i?:({{i?:}}", codes "(?:(?<__0>[+-]?\\d+)({{i?:)?")
        ∷ (codes "{{i?:)?Y}}", codes "(?:(?<__1>[+-]?\\d+))?Y)?")
        ∷ [])
      (codes "{{i?:({{i?:}}Y}}/{{i?:)?Y}}")
      0
    ≡ ok (codes "(?:(?<__0>[+-]?\\d+)((?:(?<__1>[+-]?\\d+))?Y)?/{{i?:)?Y}}")
unfolding apply find replace
misplaced = refl
