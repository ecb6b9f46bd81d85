-- ===== src/Routing/Pattern/Splice.antt =====
-- The second loop of parse_route_pattern, over a pattern that is cut into its parameters and the
-- texts between them.
use nozomi.Common.{
  [], ℕ, ◌+◌, ◌≤◌, ◌≡◌, refl, sym, ap, ◌∙◌, List, ◌∷◌, ◌++◌, map, append_assoc, arith, length, take,
  drop, length-append, take-append-drop, All, Str, ok, length-take,
}
use nozomi.Libs.{Libs}
use nozomi.Routing.Pattern.Texts.{
  IsClosed, IsClosed-append, IsClosed-drop, opened, find-closed, replace-append,
}
use nozomi.Routing.Pattern.{Replacement, apply}

-- A parameter `{{needle`, the text before it, and what takes its place.
pub record Piece : Type 0 where
  pub gap : Str
  pub needle : Str
  pub second : Str

abbrev pub source : List Piece → Str → Str
source [] tail = tail
source (p ∷ ps) tail = p.gap ++ (opened p.needle ++ source ps tail)

abbrev pub target : List Piece → Str → Str
target [] tail = tail
target (p ∷ ps) tail = p.gap ++ (p.second ++ target ps tail)

abbrev pub replacement : Piece → Replacement
replacement p = (opened p.needle, p.second)

-- No `{{` begins in the text before a parameter or in its replacement, which is the longer text.
pub record IsClear (p : Piece) : Type 0 where
  pub gap_closed : IsClosed p.gap
  pub second_closed : IsClosed p.second
  pub grows : length (opened p.needle) ≤ length p.second

-- The bytes of `second` that the search no longer sees, and those that it still sees.
cut_at :
    (a second rest : Str) (n : ℕ)
    → a ++ (second ++ rest) ≡ (a ++ take n second) ++ (drop n second ++ rest)
cut_at a second rest n = simp append_assoc (rw (← append_assoc (take n second), take-append-drop))

length-cut_at :
    (a second : Str) (n : ℕ) → n ≤ length second → length a + n ≡ length (a ++ take n second)
length-cut_at a second n h = omega (arith, length-append a (take n second), length-take n second h)

module _ (L : Libs) where
  apply-step :
      (needle second : Str) (rs : List Replacement) (a s rest : Str) (it : ℕ)
      → it ≡ length a
      → IsClosed s
      → let n = length (opened needle) in
        apply L ((opened needle, second) ∷ rs) (a ++ (s ++ (opened needle ++ rest))) it
        ≡ apply L rs ((a ++ s) ++ (second ++ rest)) (length (a ++ s) + n)
  unfolding apply
  apply-step needle second rs a s rest it e h =
      rw (e, apply, find-closed a s needle rest h)
        (rw (← length-append a s, ← append_assoc a s (opened needle ++ rest))
          (rw (replace-append (a ++ s) (opened needle) rest second _ _ refl refl)))

  -- `a` is done, and the search goes on at the text `b`, which is left of the last replacement.
  pub apply-pieces :
      (ps : List Piece) (a b tail : Str) (it : ℕ)
      → it ≡ length a
      → IsClosed b
      → All IsClear ps
      → apply L (map replacement ps) (a ++ (b ++ source ps tail)) it
        ≡ ok (a ++ (b ++ target ps tail))
  unfolding apply
  apply-pieces [] a b tail it e hb h = refl
  apply-pieces (p ∷ ps) a b tail it e hb (c, h) =
      let n = length (opened p.needle) in
      let done = (a ++ (b ++ p.gap)) ++ take n p.second in
      let left = drop n p.second in
      ap (λ t. apply L (map replacement (p ∷ ps)) (a ++ t) it) (sym (append_assoc b p.gap _))
      ∙ (apply-step p.needle p.second (map replacement ps) a (b ++ p.gap) (source ps tail) it e
            (IsClosed-append b p.gap hb c.gap_closed)
          ∙ (ap (λ t. apply L (map replacement ps) t (length (a ++ (b ++ p.gap)) + n))
                (cut_at (a ++ (b ++ p.gap)) p.second (source ps tail) n)
              ∙ (apply-pieces ps done left tail _
                    (length-cut_at (a ++ (b ++ p.gap)) p.second n c.grows)
                    (IsClosed-drop n p.second c.second_closed) h
                  ∙ ap ok (
                      sym (cut_at (a ++ (b ++ p.gap)) p.second (target ps tail) n)
                      ∙ (simp append_assoc)))))
