-- ===== src/Routing/Pattern.antt =====
-- RouteParsing.cpp: a route pattern becomes a regular expression and a list of parameter types.
pub mod Texts
pub mod Splice
pub mod Template
pub mod Parsing
pub mod Expression
pub mod Lazily
pub mod Recognised
pub mod Scanned
pub mod Documented
use mathlib.Core.Option
use nozomi.Common.{
  [], ℕ, ◌+◌, Option, none, some, List, ◌∷◌, ◌++◌, if◌then◌else◌, is_set, length, Str, codes,
  Exception, runtime_error, Result, ok, err, ◌>>=◌, ◌>>◌, pos,
}
use nozomi.Libs.{Libs}
use nozomi.Routing.Params.{
  RouteParamType, int64, double, string, optional_int64, optional_double, optional_string, text,
}
use Texts.{find, replace}

-- The text of the original match, and the regular expression that takes its place.
abbrev pub Replacement : Type 0
Replacement = Str × Str

-- The regular expression that finds the parameters of a pattern.
pub route_parser : Str
route_parser =
    codes "(?<int>\\{\\{i\\}\\})|"
    ++ codes "(?<optional_int>\\{\\{i\\?(?::(?<optional_int_regex>.+?))?\\}\\})|"
    ++ codes "(?<double>\\{\\{d\\}\\})|"
    ++ codes "(?<optional_double>\\{\\{d\\?(?::(?<optional_double_regex>.+?))?\\}\\})|"
    ++ codes "(?<string>\\{\\{s:(?<string_regex>.+?)\\}\\})|"
    ++ codes
        "(?<optional_string>\\{\\{s\\?:(?<optional_string_regex>.+?)(?::(?<optional_string_consumed>.+?))?\\}\\})"

module _ (L : Libs) where
  -- `(?<__N>`
  unfoldable pub open_group : ℕ → Str
  open_group param_num = codes "(?<__" ++ L.format_int (pos param_num) ++ codes ">"

  -- route_to_regex, in its six specialisations; those for strings compile `value` to check it.
  unfoldable pub route_to_regex : RouteParamType → ℕ → Str → Str → Str → Result Replacement
  unfolding open_group
  route_to_regex int64 param_num original value consumed =
      ok (original, open_group param_num ++ codes "[+-]?\\d+)")
  route_to_regex optional_int64 param_num original value consumed = ok (
    original,
    codes "(?:" ++ open_group param_num ++ codes "[+-]?\\d+)" ++ consumed ++ codes ")?",
  )
  route_to_regex double param_num original value consumed =
      ok (original, open_group param_num ++ codes "[+-]?\\d+(?:\\.\\d+)?)")
  route_to_regex optional_double param_num original value consumed = ok (
    original,
    codes "(?:" ++ open_group param_num ++ codes "[+-]?\\d+(?:\\.\\d+)?)" ++ consumed ++ codes ")?",
  )
  route_to_regex string param_num original value consumed = do
    re ← L.compile value
    ok (original, open_group param_num ++ value ++ codes ")")
  route_to_regex optional_string param_num original value consumed = do
    re ← L.compile value
    ok (
      original,
      codes "(?:" ++ open_group param_num ++ value ++ codes ")" ++ consumed ++ codes ")?",
    )

  -- One arm of the chain of `if`s in the first loop: the parameter `type`, whose match, value and
  -- consumed text are groups of the match.
  abbrev replace_as :
      RouteParamType → ℕ → Str → Str → Str → Result (Option (Replacement × RouteParamType))
  replace_as type n original value consumed = do
    r ← route_to_regex type n original value consumed
    ok (some (r, type))

  -- A round of the first loop; `n` is replacements.size().
  pub classify : ℕ → L.Matches → Result (Option (Replacement × RouteParamType))
  unfolding route_to_regex
  classify n match =
      let g = λ (name : Str). L.group match name in
      let s = λ (name : Str). text (L.group match name) in
      if is_set (g (codes "int"))
      then replace_as int64 n (s (codes "int")) [] []
      else if is_set (g (codes "optional_int"))
      then replace_as optional_int64 n (s (codes "optional_int")) []
          (s (codes "optional_int_regex"))
      else if is_set (g (codes "double"))
      then replace_as double n (s (codes "double")) [] []
      else if is_set (g (codes "optional_double"))
      then replace_as optional_double n (s (codes "optional_double")) []
          (s (codes "optional_double_regex"))
      else if is_set (g (codes "string"))
      then replace_as string n (s (codes "string")) (s (codes "string_regex")) []
      else if is_set (g (codes "optional_string"))
      then replace_as optional_string n (s (codes "optional_string"))
          (s (codes "optional_string_regex")) (s (codes "optional_string_consumed"))
      else ok none

  -- The first loop: the replacements and the types so far.
  pub collect :
      List L.Matches
      → List Replacement
      → List RouteParamType
      → Result (List Replacement × List RouteParamType)
  collect [] replacements types = ok (replacements, types)
  collect (match ∷ rest) replacements types = do
    found ← classify (length replacements) match
    let next : List Replacement × List RouteParamType = elim found [
      | none ↦ (replacements, types)
      | some (r, t) ↦ (replacements ++ r ∷ [], types ++ t ∷ [])
    ]
    collect rest next.0 next.1

  library_error : Replacement → Str → Exception
  library_error r final_route = runtime_error (
      codes
        "Attempted to transform route pattern into regular expression, and failed. This is a library error, and should be fixed. Tried to replace "
      ++ r.0
      ++ codes " with "
      ++ r.1
      ++ codes ". Pattern so far: "
      ++ final_route
      ++ codes ".")

  -- The second loop; `it` is where the search goes on.
  unfoldable pub apply : List Replacement → Str → ℕ → Result Str
  unfolding library_error
  apply [] final_route it = ok final_route
  apply (r ∷ rest) final_route it = elim (find r.0 final_route it) [
    | none ↦ err (library_error r final_route)
    | some at ↦ apply rest (replace at (length r.0) r.1 final_route) (at + length r.0)
  ]

  pub parse_route_pattern : Str → Result (L.Regex × List RouteParamType)
  unfolding collect apply
  parse_route_pattern pattern = do
    re ← L.compile route_parser
    found ← collect (L.iterate re pattern) [] []
    final_route ← apply found.0 pattern 0
    regex ← L.compile final_route
    ok (regex, found.1)
