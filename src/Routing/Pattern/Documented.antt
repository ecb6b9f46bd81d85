-- ===== src/Routing/Pattern/Documented.antt =====
-- parse_route_pattern on a documented pattern, from the expression of the source on.
use nozomi.Common.{
  ◌≡◌, sym, ap, subst, ◌∙◌, List, [], ◌∷◌, arith, length, All, Str, codes, str_eq, ok, ◌>>=◌,
}
use nozomi.Libs.{Libs}
use nozomi.Routing.Params.{text}
use nozomi.Routing.Pattern.{parse_route_pattern, route_parser}
use nozomi.Routing.Pattern.Texts.{IsClosed}
use nozomi.Routing.Pattern.Template.{
  Parameter, int_param, double_param, optional_int_param, optional_double_param, string_param,
  optional_string_param, Template, write, expand, IsPlain, PrintsDigits,
}
use nozomi.Routing.Pattern.Expression.{
  Captures, parameter_expression, write_expression, matches_of, group_of, route_parser_written,
}
use nozomi.Routing.Pattern.Recognised.{groups_of}
use nozomi.Routing.Pattern.Scanned.{all_groups, all_of-write, IsClear}
use nozomi.Routing.Pattern.Parsing.{
  Reports, ReportsAll, HasRegexValue, types_of, parse_route_pattern-write,
}

module _ (L : Libs) where
  -- A match of Boost has the groups of a match, and no others.
  abbrev pub HasGroups : L.Matches → Captures → Type 0
  HasGroups m groups = (name : Str) → L.group m name ≡ group_of name groups

  abbrev pub HaveGroups : List L.Matches → List Captures → Type 0
  HaveGroups [] [] = Unit
  HaveGroups [] (_ ∷ _) = ⊥
  HaveGroups (_ ∷ _) [] = ⊥
  HaveGroups (m ∷ ms) (groups ∷ rest) = HasGroups m groups × HaveGroups ms rest

  -- Boost's iterator over `parameter_expression`, as a Perl expression: it reports what the expression
  -- matches, from left to right.
  abbrev pub FindsAll : Type 0
  FindsAll =
      (parser : L.Regex)
      → L.compile (write_expression parameter_expression) ≡ ok parser
      → (s : Str) → HaveGroups (L.iterate parser s) (matches_of parameter_expression (length s) s)

  reported : (m : L.Matches) (p : Parameter) → HasGroups m (groups_of p) → Reports L m p
  unfolding str_eq
  reported m int_param h = h (codes "int")
  reported m double_param h = (h (codes "int"), h (codes "optional_int"), h (codes "double"))
  reported m (optional_int_param []) h =
      (h (codes "int"), h (codes "optional_int"), ap text (h (codes "optional_int_regex")))
  reported m (optional_double_param []) h = (
    h (codes "int"),
    h (codes "optional_int"),
    h (codes "double"),
    h (codes "optional_double"),
    ap text (h (codes "optional_double_regex")),
  )
  reported m (optional_int_param (d ∷ c)) h =
      (h (codes "int"), h (codes "optional_int"), ap text (h (codes "optional_int_regex")))
  reported m (optional_double_param (d ∷ c)) h = (
    h (codes "int"),
    h (codes "optional_int"),
    h (codes "double"),
    h (codes "optional_double"),
    ap text (h (codes "optional_double_regex")),
  )
  reported m (string_param v) h = (
    h (codes "int"),
    h (codes "optional_int"),
    h (codes "double"),
    h (codes "optional_double"),
    h (codes "string"),
    ap text (h (codes "string_regex")),
  )
  reported m (optional_string_param v []) h = (
    h (codes "int"),
    h (codes "optional_int"),
    h (codes "double"),
    h (codes "optional_double"),
    h (codes "string"),
    h (codes "optional_string"),
    ap text (h (codes "optional_string_regex")),
    ap text (h (codes "optional_string_consumed")),
  )
  reported m (optional_string_param v (d ∷ c)) h = (
    h (codes "int"),
    h (codes "optional_int"),
    h (codes "double"),
    h (codes "optional_double"),
    h (codes "string"),
    h (codes "optional_string"),
    ap text (h (codes "optional_string_regex")),
    ap text (h (codes "optional_string_consumed")),
  )

  all_reported :
      (ms : List L.Matches) (template : Template)
      → HaveGroups ms (all_groups template)
      → ReportsAll L ms template
  all_reported [] [] h = tt
  all_reported [] ((gap, p) ∷ rest) h = absurd h
  all_reported (m ∷ ms) [] h = absurd h
  all_reported (m ∷ ms) ((gap, p) ∷ rest) (h, hs) = (reported m p h, all_reported ms rest hs)

  -- The iterator reports the parameters of a pattern, in order.
  pub finds-ReportsAll :
      (template : Template) (tail : Str) (parser : L.Regex)
      → FindsAll
      → L.compile route_parser ≡ ok parser
      → All IsClear template
      → IsClosed tail
      → ReportsAll L (L.iterate parser (write template tail)) template
  finds-ReportsAll template tail parser finds compiled clear closed =
      let s = write template tail in
      all_reported (L.iterate parser s) template (
        subst (λ groups. HaveGroups (L.iterate parser s) groups)
          (all_of-write template tail (length s) (omega arith) clear closed)
          (finds parser (ap L.compile (sym route_parser_written) ∙ compiled) s))

  -- A pattern written from its parameters is turned into the regular expression in which each of them
  -- is replaced in place, by the group `__n` of its position, and into the list of their types; the only
  -- way to fail is then that this expression does not compile.
  -- It is assumed that the expression of the source compiles, and that Boost's iterator reports what a
  -- Perl expression of its kind matches; that no `{{` begins in the plain texts, values and consumed
  -- texts, and no `}}` in values and consumed texts; that values are not empty, have no colon where the
  -- parameter is an optional text, and compile; and that numbers are printed in digits.
  pub parse_route_pattern-expand :
      (template : Template) (tail : Str) (parser : L.Regex)
      → PrintsDigits L
      → FindsAll
      → L.compile route_parser ≡ ok parser
      → All IsPlain template
      → All IsClear template
      → IsClosed tail
      → All (HasRegexValue L) template
      → parse_route_pattern L (write template tail)
        ≡ (L.compile (expand L 0 template tail) >>= λ regex. ok (regex, types_of L template))
  parse_route_pattern-expand template tail parser digits finds compiled plain clear closed valid =
      parse_route_pattern-write L template tail parser digits compiled
        (finds-ReportsAll template tail parser finds compiled clear closed) plain valid
