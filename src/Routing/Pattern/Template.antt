-- ===== src/Routing/Pattern/Template.antt =====
-- Route patterns as they are documented: parameters with their values and consumed texts, between
-- plain texts; how a pattern is written, and which regular expression stands for it.
use nozomi.Common.{
  [], ℕ, ◌+◌, ◌≤◌, ◌≡◌, refl, ap, List, ◌∷◌, ◌++◌, arith, length, length-append, All, Str, codes,
  pos,
}
use nozomi.Libs.{Libs}
use nozomi.Routing.Params.{
  RouteParamType, int64, double, string, optional_int64, optional_double, optional_string,
}
use nozomi.Routing.Pattern.Texts.{IsClosed, IsClosed-append, opened}
use nozomi.Routing.Pattern.Splice.{Piece, IsClear, source, target}

-- An empty consumed text stands for none: `{{i?}}`.
pub data Parameter : Type 0 where
  int_param double_param : Parameter
  optional_int_param optional_double_param : Str → Parameter
  string_param : Str → Parameter
  optional_string_param : Str → Str → Parameter

abbrev pub type_of : Parameter → RouteParamType
type_of int_param = int64
type_of double_param = double
type_of (optional_int_param consumed) = optional_int64
type_of (optional_double_param consumed) = optional_double
type_of (string_param value) = string
type_of (optional_string_param value consumed) = optional_string

abbrev pub after_colon : Str → Str
after_colon [] = []
after_colon (c ∷ s) = b':' ∷ c ∷ s

-- How a parameter is written, behind its `{{`.
abbrev pub needle_of : Parameter → Str
needle_of int_param = codes "i}}"
needle_of double_param = codes "d}}"
needle_of (optional_int_param consumed) = codes "i?" ++ (after_colon consumed ++ codes "}}")
needle_of (optional_double_param consumed) = codes "d?" ++ (after_colon consumed ++ codes "}}")
needle_of (string_param value) = codes "s:" ++ (value ++ codes "}}")
needle_of (optional_string_param value consumed) =
    codes "s?:" ++ (value ++ (after_colon consumed ++ codes "}}"))

-- The value and the consumed text of a parameter, where it has them.
abbrev pub value_of : Parameter → Str
value_of (string_param value) = value
value_of (optional_string_param value consumed) = value
value_of _ = []

abbrev pub consumed_of : Parameter → Str
consumed_of (optional_int_param consumed) = consumed
consumed_of (optional_double_param consumed) = consumed
consumed_of (optional_string_param value consumed) = consumed
consumed_of _ = []

-- A pattern: each parameter with the text before it, and the text behind the last.
abbrev pub Template : Type 0
Template = List (Str × Parameter)

abbrev pub write : Template → Str → Str
write [] tail = tail
write ((gap, p) ∷ rest) tail = gap ++ (opened (needle_of p) ++ write rest tail)

-- No `{{` begins in a text between the parameters, in a value or in a consumed text.
abbrev pub IsPlain : Str × Parameter → Type 0
IsPlain (gap, p) = IsClosed gap × IsClosed (value_of p) × IsClosed (consumed_of p)

module _ (L : Libs) where
  -- The regular expressions of an integer and of a decimal number.
  abbrev pub int_regex : Str
  int_regex = codes "[+-]?\\d+"

  abbrev pub double_regex : Str
  double_regex = codes "[+-]?\\d+(?:\\.\\d+)?"

  -- A group named `__n`, around `inner`.
  abbrev pub named : ℕ → Str → Str
  named n inner = codes "(?<__" ++ (L.format_int (pos n) ++ (codes ">" ++ (inner ++ codes ")")))

  abbrev pub optional : Str → Str → Str
  optional group consumed = codes "(?:" ++ (group ++ (consumed ++ codes ")?"))

  -- The regular expression of the n-th parameter.
  abbrev pub regex_of : ℕ → Parameter → Str
  regex_of n int_param = named n int_regex
  regex_of n double_param = named n double_regex
  regex_of n (optional_int_param consumed) = optional (named n int_regex) consumed
  regex_of n (optional_double_param consumed) = optional (named n double_regex) consumed
  regex_of n (string_param value) = named n value
  regex_of n (optional_string_param value consumed) = optional (named n value) consumed

  -- The regular expression of a pattern whose first parameter is the n-th.
  abbrev pub expand : ℕ → Template → Str → Str
  expand n [] tail = tail
  expand n ((gap, p) ∷ rest) tail = gap ++ (regex_of n p ++ expand (n + 1) rest tail)

  abbrev pub pieces : ℕ → Template → List Piece
  pieces n [] = []
  pieces n ((gap, p) ∷ rest) =
      record { gap = gap; needle = needle_of p; second = regex_of n p } ∷ pieces (n + 1) rest

  -- `sformat` prints a number in digits.
  abbrev pub PrintsDigits : Type 0
  PrintsDigits = (n : ℕ) → IsClosed (L.format_int (pos n))

  named-IsClosed : PrintsDigits → (n : ℕ) (inner : Str) → IsClosed inner → IsClosed (named n inner)
  named-IsClosed digits n inner h = IsClosed-append (codes "(?<__") _ (omega arith) (
      IsClosed-append (L.format_int (pos n)) _ (digits n)
        (IsClosed-append (codes ">") _ (omega arith) (IsClosed-append inner _ h (omega arith))))

  optional-IsClosed :
      (group consumed : Str)
      → IsClosed group
      → IsClosed consumed
      → IsClosed (optional group consumed)
  optional-IsClosed group consumed hg hc =
      IsClosed-append (codes "(?:") _ (omega arith)
        (IsClosed-append group _ hg (IsClosed-append consumed _ hc (omega arith)))

  regex_of-IsClosed :
      PrintsDigits
      → (n : ℕ) (p : Parameter) → IsClosed (value_of p)
      → IsClosed (consumed_of p)
      → IsClosed (regex_of n p)
  regex_of-IsClosed digits n int_param hv hc = named-IsClosed digits n int_regex (omega arith)
  regex_of-IsClosed digits n double_param hv hc = named-IsClosed digits n double_regex (omega arith)
  regex_of-IsClosed digits n (optional_int_param c) hv hc =
      optional-IsClosed (named n int_regex) c (named-IsClosed digits n int_regex (omega arith)) hc
  regex_of-IsClosed digits n (optional_double_param c) hv hc =
      optional-IsClosed (named n double_regex) c
        (named-IsClosed digits n double_regex (omega arith)) hc
  regex_of-IsClosed digits n (string_param v) hv hc = named-IsClosed digits n v hv
  regex_of-IsClosed digits n (optional_string_param v c) hv hc =
      optional-IsClosed (named n v) c (named-IsClosed digits n v hv) hc

  length-named : (n : ℕ) (inner : Str) → 7 + length inner ≤ length (named n inner)
  length-named n inner = omega (arith, length-append {0})

  length-optional :
      (group consumed : Str) → length (optional group consumed) ≡ 5 + length group + length consumed
  length-optional group consumed = omega (arith, length-append {0})

  length-after_colon : (s : Str) → length (after_colon s) ≤ length s + 1
  length-after_colon [] = omega arith
  length-after_colon (c ∷ s) = omega arith

  -- A regular expression is at least as long as the parameter that it stands for.
  length-regex_of : (n : ℕ) (p : Parameter) → length (opened (needle_of p)) ≤ length (regex_of n p)
  length-regex_of n int_param = omega (arith, length-named n int_regex)
  length-regex_of n double_param = omega (arith, length-named n double_regex)
  length-regex_of n (optional_int_param c) = omega (
    arith,
    length-optional (named n int_regex) c,
    length-named n int_regex,
    length-append (after_colon c) (codes "}}"),
    length-after_colon c,
  )
  length-regex_of n (optional_double_param c) = omega (
    arith,
    length-optional (named n double_regex) c,
    length-named n double_regex,
    length-append (after_colon c) (codes "}}"),
    length-after_colon c,
  )
  length-regex_of n (string_param v) = omega (arith, length-named n v, length-append v (codes "}}"))
  length-regex_of n (optional_string_param v c) = omega (
    arith,
    length-optional (named n v) c,
    length-named n v,
    length-append v (after_colon c ++ codes "}}"),
    length-append (after_colon c) (codes "}}"),
    length-after_colon c,
  )

  -- The pieces of a plain pattern are clear.
  pub pieces-IsClear :
      PrintsDigits
      → (n : ℕ) (template : Template) → All IsPlain template
      → All IsClear (pieces n template)
  pieces-IsClear digits n [] h = tt
  pieces-IsClear digits n ((gap, p) ∷ rest) ((hg, hv, hc), h) = (
    record {
      gap_closed = hg;
      second_closed = regex_of-IsClosed digits n p hv hc;
      grows = length-regex_of n p;
    },
    pieces-IsClear digits (n + 1) rest h,
  )

  pub source-pieces :
      (n : ℕ) (template : Template) (tail : Str)
      → source (pieces n template) tail ≡ write template tail
  source-pieces n [] tail = refl
  source-pieces n ((gap, p) ∷ rest) tail =
      ap (λ s. gap ++ (opened (needle_of p) ++ s)) (source-pieces (n + 1) rest tail)

  pub target-pieces :
      (n : ℕ) (template : Template) (tail : Str)
      → target (pieces n template) tail ≡ expand n template tail
  target-pieces n [] tail = refl
  target-pieces n ((gap, p) ∷ rest) tail =
      ap (λ s. gap ++ (regex_of n p ++ s)) (target-pieces (n + 1) rest tail)
