-- ===== src/Routing/Pattern/Parsing.antt =====
-- parse_route_pattern on the patterns that are documented.
use nozomi.Common.{
  [], ℕ, ◌≡◌, Option, none, some, List, ◌∷◌, append_assoc, Str, codes, ok, ◌+◌, refl, ap, ◌∙◌, ◌++◌,
  map, append-nil, arith, length, length-append, All, ◌>>=◌,
}
use nozomi.Libs.{Libs}
use nozomi.Routing.Params.{text, RouteParamType}
use nozomi.Routing.Pattern.Texts.{opened}
use nozomi.Routing.Pattern.Splice.{replacement, apply-pieces}
use nozomi.Routing.Pattern.Template.{
  IsPlain, expand, PrintsDigits, pieces-IsClear, source-pieces, target-pieces, Template, Parameter,
  int_param, double_param, optional_int_param, optional_double_param, string_param,
  optional_string_param, type_of, needle_of, regex_of, write, pieces,
}
use nozomi.Routing.Pattern.{
  apply, parse_route_pattern, route_parser, classify, collect, Replacement,
}

module _ (L : Libs) where
  abbrev Group : L.Matches → Str → Option Str → Type 0
  Group m name found = L.group m name ≡ found

  abbrev written : Parameter → Option Str
  written p = some (opened (needle_of p))

  -- The named groups of a match of `route_parser` at a parameter: the first alternative that is
  -- matched is the parameter's own, with its value and its consumed text.
  abbrev pub Reports : L.Matches → Parameter → Type 0
  Reports m int_param = Group m (codes "int") (written int_param)
  Reports m (optional_int_param c) =
      Group m (codes "int") none
      × Group m (codes "optional_int") (written (optional_int_param c))
      × (text (L.group m (codes "optional_int_regex")) ≡ c)
  Reports m double_param =
      Group m (codes "int") none
      × Group m (codes "optional_int") none
      × Group m (codes "double") (written double_param)
  Reports m (optional_double_param c) =
      Group m (codes "int") none
      × Group m (codes "optional_int") none
      × Group m (codes "double") none
      × Group m (codes "optional_double") (written (optional_double_param c))
      × (text (L.group m (codes "optional_double_regex")) ≡ c)
  Reports m (string_param v) =
      Group m (codes "int") none
      × Group m (codes "optional_int") none
      × Group m (codes "double") none
      × Group m (codes "optional_double") none
      × Group m (codes "string") (written (string_param v))
      × (text (L.group m (codes "string_regex")) ≡ v)
  Reports m (optional_string_param v c) =
      Group m (codes "int") none
      × Group m (codes "optional_int") none
      × Group m (codes "double") none
      × Group m (codes "optional_double") none
      × Group m (codes "string") none
      × Group m (codes "optional_string") (written (optional_string_param v c))
      × (text (L.group m (codes "optional_string_regex")) ≡ v)
      × (text (L.group m (codes "optional_string_consumed")) ≡ c)

  -- One match for each parameter, in order.
  abbrev pub ReportsAll : List L.Matches → Template → Type 0
  ReportsAll [] [] = Unit
  ReportsAll [] (_ ∷ _) = ⊥
  ReportsAll (_ ∷ _) [] = ⊥
  ReportsAll (m ∷ ms) ((gap, p) ∷ rest) = Reports m p × ReportsAll ms rest

  -- The value of a string parameter is itself a regular expression.
  abbrev pub HasRegexValue : Str × Parameter → Type 0
  HasRegexValue (gap, string_param v) = (re : L.Regex) × (L.compile v ≡ ok re)
  HasRegexValue (gap, optional_string_param v c) = (re : L.Regex) × (L.compile v ≡ ok re)
  HasRegexValue (gap, _) = Unit

  classify-Reports :
      (n : ℕ) (m : L.Matches) (gap : Str) (p : Parameter)
      → Reports m p
      → HasRegexValue (gap, p)
      → classify L n m ≡ ok (some ((opened (needle_of p), regex_of L n p), type_of p))
  unfolding classify
  classify-Reports n m gap int_param r h = rw r (simp append_assoc)
  classify-Reports n m gap double_param (r0, r1, r2) h = rw (r0, r1, r2) (simp append_assoc)
  classify-Reports n m gap (optional_int_param c) (r0, r1, r2) h =
      rw (r0, r1, r2) (simp append_assoc)
  classify-Reports n m gap (optional_double_param c) (r0, r1, r2, r3, r4) h =
      rw (r0, r1, r2, r3, r4) (simp append_assoc)
  classify-Reports n m gap (string_param v) (r0, r1, r2, r3, r4, r5) (re, h) =
      rw (r0, r1, r2, r3, r4, r5, h) (simp append_assoc)
  classify-Reports n m gap (optional_string_param v c) (r0, r1, r2, r3, r4, r5, r6, r7) (re, h) =
      rw (r0, r1, r2, r3, r4, r5, r6, r7, h) (simp append_assoc)

  -- The types of a pattern's parameters, in order.
  abbrev pub types_of : Template → List RouteParamType
  types_of template = map (λ gp. type_of gp.1) template

  collect-Reports :
      (ms : List L.Matches) (template : Template) (rs : List Replacement)
      (types : List RouteParamType) (n : ℕ)
      → n ≡ length rs
      → ReportsAll ms template
      → All HasRegexValue template
      → collect L ms rs types
        ≡ ok (rs ++ map replacement (pieces L n template), types ++ types_of template)
  unfolding collect
  collect-Reports [] [] rs types n e r h = rw (append-nil, append-nil)
  collect-Reports [] (x ∷ rest) rs types n e r h = absurd r
  collect-Reports (m ∷ ms) [] rs types n e r h = absurd r
  collect-Reports (m ∷ ms) ((gap, p) ∷ rest) rs types n e (r, rs') (h, hs) =
      rw (← e, classify-Reports n m gap p r h)
        (collect-Reports ms rest _ _ (n + 1)
            (omega (arith, length-append rs ((opened (needle_of p), regex_of L n p) ∷ []))) rs' hs
          ∙ (rw (append_assoc rs, append_assoc types)))

  apply-write :
      (template : Template) (tail : Str)
      → PrintsDigits L
      → All IsPlain template
      → apply L (map replacement (pieces L 0 template)) (write template tail) 0
        ≡ ok (expand L 0 template tail)
  apply-write template tail digits plain = rw (← source-pieces L 0 template tail) (
      apply-pieces L (pieces L 0 template) [] [] tail 0 refl tt
        (pieces-IsClear L digits 0 template plain)
      ∙ ap ok (target-pieces L 0 template tail))

  -- A pattern written from its parameters is turned into the regular expression in which each of
  -- them is replaced in place, by the group `__n` of its position, and into the list of their types;
  -- the only way to fail is then that this expression does not compile. It is assumed that no `{{`
  -- begins in the plain texts, values and consumed texts, that each value compiles, that numbers are
  -- printed in digits, and that the iterator reports the parameters in order.
  pub parse_route_pattern-write :
      (template : Template) (tail : Str) (parser : L.Regex)
      → PrintsDigits L
      → L.compile route_parser ≡ ok parser
      → ReportsAll (L.iterate parser (write template tail)) template
      → All IsPlain template
      → All HasRegexValue template
      → parse_route_pattern L (write template tail)
        ≡ (L.compile (expand L 0 template tail) >>= λ regex. ok (regex, types_of template))
  unfolding parse_route_pattern
  parse_route_pattern-write template tail parser digits compiled reports plain valid = rw (
    compiled,
    collect-Reports _ template [] [] 0 refl reports valid,
    apply-write template tail digits plain,
  )
