-- ===== src/Examples/Documented.antt =====
-- A pattern with a parameter of each kind, on the sample libraries with an iterator that matches the
-- expression of the source.
use nozomi.Common.{◌≡◌, refl, ◌↔◌, List, [], ◌∷◌, arith, length, All, codes, ok}
use nozomi.Libs.{Libs}
use nozomi.Libs.Sample.{sample}
use nozomi.Http.{Response, response_of_status}
use nozomi.Routing.Params.{ArgType, int64_type, optional}
use nozomi.Routing.Params
use nozomi.Routing.Pattern.{parse_route_pattern, route_parser}
use nozomi.Routing.Pattern.Template.{
  Template, int_param, double_param, optional_int_param, optional_double_param, string_param,
  optional_string_param, write, expand, IsPlain, PrintsDigits,
}
use nozomi.Routing.Pattern.Expression.{Captures, parameter_expression, matches_of, group_of}
use nozomi.Routing.Pattern.Scanned.{IsClear}
use nozomi.Routing.Pattern.Documented.{HaveGroups, FindsAll, parse_route_pattern-expand}
use nozomi.Routing.Pattern.Parsing.{types_of, HasRegexValue}
use nozomi.Routing.Deduction.{Callable, make_route_of_callable, make_route_of_function}
use nozomi.Routing.Deduction.Types.{callable}
use nozomi.Routing.Deduction.Accepted.{IsMade, IsFit, make_route-IsMade_iff}
use nozomi.Examples.Patterns.{sample_digits}

abbrev reading : Libs
reading = record sample {
  boost = record sample.boost {
    iterate = λ re s. matches_of parameter_expression (length s) s;
    group = λ m name. group_of name m;
  };
}

HaveGroups-self : (ms : List Captures) → HaveGroups reading ms ms
HaveGroups-self [] = tt
HaveGroups-self (m ∷ ms) = ((λ name. refl), HaveGroups-self ms)

reading-FindsAll : FindsAll reading
reading-FindsAll parser e s = HaveGroups-self (matches_of parameter_expression (length s) s)

reading-PrintsDigits : PrintsDigits reading
reading-PrintsDigits = sample_digits

-- `/{{i}}/{{i?:x}}{{d}},{{d?}}/{{s:[a-z]+}}{{s?:b:/}}`
abbrev every : Template
every =
    (codes "/", int_param)
    ∷ (codes "/", optional_int_param (codes "x"))
    ∷ ([], double_param)
    ∷ (codes ",", optional_double_param [])
    ∷ (codes "/", string_param (codes "[a-z]+"))
    ∷ ([], optional_string_param (codes "b") (codes "/"))
    ∷ []

found_groups :
    matches_of parameter_expression 60 (codes "/{{i}}/{{s?:b:/}}")
    ≡ ((codes "int", codes "{{i}}") ∷ [])
      ∷ ((codes "optional_string", codes "{{s?:b:/}}")
          ∷ (codes "optional_string_consumed", codes "/")
          ∷ (codes "optional_string_regex", codes "b")
          ∷ [])
      ∷ []
found_groups = refl

every-IsPlain : All IsPlain every
every-IsPlain = omega arith

every-IsClear : All IsClear every
every-IsClear = (
  omega arith,
  (
    omega arith,
    (
      omega arith,
      (
        omega arith,
        (
          (omega arith, (λ e. cc e, omega arith)),
          ((omega arith, (λ e. cc e, omega arith, omega arith)), tt),
        ),
      ),
    ),
  ),
)

every-HasRegexValue : All (HasRegexValue reading) every
every-HasRegexValue = (tt, (tt, (tt, (tt, ((_, refl), ((_, refl), tt))))))

parse_route_pattern-expand_example :
    parse_route_pattern reading (write every [])
    ≡ ok (expand reading 0 every [], types_of reading every)
parse_route_pattern-expand_example =
    parse_route_pattern-expand reading every [] route_parser reading-PrintsDigits reading-FindsAll
      refl every-IsPlain every-IsClear tt every-HasRegexValue

-- A function of a request, a number and an optional one.
abbrev two : Template
two = (codes "/", int_param) ∷ (codes "/", optional_int_param []) ∷ []

abbrev given : Callable reading
given =
    callable reading (Params.ArgType.plain int64_type ∷ optional int64_type ∷ [])
      (λ values. ok (reading.make_future (Response reading) (response_of_status reading 200)))

two-IsPlain : All IsPlain two
two-IsPlain = omega arith

two-IsClear : All IsClear two
two-IsClear = omega arith

make_route-IsMade_iff_example :
    (IsMade reading (0 ∷ []) two [] (make_route_of_callable reading (write two []) (0 ∷ []) given)
      ↔ IsFit reading (0 ∷ []) two [] given.types)
    × (IsMade reading (0 ∷ []) two [] (make_route_of_function reading (write two []) (0 ∷ []) given)
        ↔ IsFit reading (0 ∷ []) two [] given.types)
make_route-IsMade_iff_example =
    make_route-IsMade_iff reading (0 ∷ []) two [] route_parser (expand reading 0 two [])
      reading-PrintsDigits reading-FindsAll refl two-IsPlain two-IsClear tt (tt, (tt, tt)) refl
      given
