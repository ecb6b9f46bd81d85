-- ===== src/Routing/Pattern/Expression.antt =====
-- The regular expression that finds the parameters of a pattern, as a term, and what a Perl expression
-- of its kind matches: alternatives and repetitions are tried in order, and the first way to go on
-- that succeeds is taken.
use nozomi.Common.{
  ℕ, zero, suc, ◌-◌, ◌≡◌, refl, ◌||◌, Option, none, some, List, [], ◌∷◌, ◌++◌, ◌==◌, if◌then◌else◌,
  length, take, Str, codes, str_eq,
}
use nozomi.Routing.Pattern.{route_parser}

-- `.+?`, a text, one expression behind another, `a|b`, `(?:a)?`, and `(?<name>a)`.
pub data Expression : Type 0 where
  lazily : Expression
  exactly : Str → Expression
  followed : Expression → Expression → Expression
  either : Expression → Expression → Expression
  optionally : Expression → Expression
  named : Str → Expression → Expression

-- The characters that are written behind a backslash.
abbrev escaped : ℕ → Str
escaped c = if (c == b'{') || ((c == b'}') || (c == b'?')) then b'\\' ∷ c ∷ [] else c ∷ []

abbrev write_text : Str → Str
write_text [] = []
write_text (c ∷ s) = escaped c ++ write_text s

abbrev pub write_expression : Expression → Str
write_expression lazily = codes ".+?"
write_expression (exactly s) = write_text s
write_expression (followed a b) = write_expression a ++ write_expression b
write_expression (either a b) = write_expression a ++ codes "|" ++ write_expression b
write_expression (optionally a) = codes "(?:" ++ write_expression a ++ codes ")?"
write_expression (named name a) =
    codes "(?<" ++ name ++ codes ">" ++ write_expression a ++ codes ")"

-- The texts of the named groups.
abbrev pub Captures : Type 0
Captures = List (Str × Str)

-- How a match goes on behind an expression: with the text that is left, and the groups so far.
abbrev pub Next : Type 0
Next = Str → Captures → Option (Captures × Str)

abbrev pub or_else : Option (Captures × Str) → Option (Captures × Str) → Option (Captures × Str)
or_else none b = b
or_else (some r) b = some r

abbrev pub strip : Str → Str → Option Str
strip [] s = some s
strip (c ∷ w) [] = none
strip (c ∷ w) (d ∷ s) = let rest = strip w s in if c == d then rest else none

abbrev pub run_lazily : Str → Captures → Next → Option (Captures × Str)
run_lazily [] groups next = none
run_lazily (c ∷ s) groups next = or_else (next s groups) (run_lazily s groups next)

abbrev pub taken : Str → Str → Str
taken s rest = take (length s - length rest) s

abbrev pub run : Expression → Str → Captures → Next → Option (Captures × Str)
run lazily s groups next = run_lazily s groups next
run (exactly w) s groups next = elim (strip w s) [ none ↦ none | some rest ↦ next rest groups ]
run (followed a b) s groups next = run a s groups (λ s' groups'. run b s' groups' next)
run (either a b) s groups next = or_else (run a s groups next) (run b s groups next)
run (optionally a) s groups next = or_else (run a s groups next) (next s groups)
run (named name a) s groups next =
    run a s groups (λ s' groups'. next s' ((name, taken s s') ∷ groups'))

-- Behind a match the search goes on with what is left, and else with the next character.
abbrev pub go_on : List Captures → (Str → List Captures) → Option (Captures × Str) → List Captures
go_on later next none = later
go_on later next (some (groups, rest)) = groups ∷ next rest

-- All matches, from left to right, in a text that is no longer than the fuel.
abbrev pub matches_of : Expression → ℕ → Str → List Captures
matches_of e zero s = []
matches_of e (suc fuel) [] = []
matches_of e (suc fuel) (c ∷ s) =
    go_on (matches_of e fuel s) (λ rest. matches_of e fuel rest)
      (run e (c ∷ s) [] (λ rest groups. some (groups, rest)))

-- What follows `{{i?`, or `{{d?`, or the value of an optional text: a colon and a consumed text.
abbrev pub consumed_as : Str → Expression
consumed_as name = optionally (followed (exactly (codes ":")) (named name lazily))

abbrev pub parameter_expression : Expression
parameter_expression = either (named (codes "int") (exactly (codes "{{i}}"))) (
    either
      (named (codes "optional_int") (
        followed (exactly (codes "{{i?"))
          (followed (consumed_as (codes "optional_int_regex")) (exactly (codes "}}")))))
      (either (named (codes "double") (exactly (codes "{{d}}"))) (
        either
          (named (codes "optional_double") (
            followed (exactly (codes "{{d?"))
              (followed (consumed_as (codes "optional_double_regex")) (exactly (codes "}}")))))
          (either
            (named (codes "string") (
              followed (exactly (codes "{{s:"))
                (followed (named (codes "string_regex") lazily) (exactly (codes "}}")))))
            (named (codes "optional_string") (
              followed (exactly (codes "{{s?:")) (
                followed (named (codes "optional_string_regex") lazily) (
                  followed (consumed_as (codes "optional_string_consumed"))
                    (exactly (codes "}}"))))))))))

-- It is the expression of the source.
pub route_parser_written : route_parser ≡ write_expression parameter_expression
unfolding route_parser
route_parser_written = refl

abbrev pub group_of : Str → Captures → Option Str
group_of name [] = none
group_of name ((k, v) ∷ groups) = if str_eq k name then some v else group_of name groups
