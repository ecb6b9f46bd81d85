-- ===== src/Files/Buffers.antt =====
-- What a buffer holds that a piece of a file has been read into.
use nozomi.Common.{
  length-take, ℕ, zero, suc, ◌+◌, ◌-◌, ◌≤◌, ◌<◌, ◌≡◌, sym, ap, subst, ◌∙◌, inl, inr, true, false,
  [], ◌∷◌, ◌++◌, arith, ltb, Bool-cases, length, take, drop, length-append, take-append-drop, Str,
}
use nozomi.Libs.{Libs}
use nozomi.Libs.Laws.{FillLaws}
use nozomi.Streaming.{head_length}
use nozomi.Files.{read_buffer}

pub lt_of_ltb : (a b : ℕ) → ltb a b ≡ true → a < b
lt_of_ltb a b h = ground arith

pub le_of_ltb : (a b : ℕ) → ltb a b ≡ false → b ≤ a
le_of_ltb a b h = ground arith

ltb_of_lt : (a b : ℕ) → a < b → ltb a b ≡ true
ltb_of_lt a b h = ground arith

pub length-drop : (n : ℕ) (s : Str) → n ≤ length s → length (drop n s) + n ≡ length s
length-drop n s h = omega (
  arith,
  ap length (take-append-drop n s),
  length-append (take n s) (drop n s),
  length-take n s h,
)

-- The text after a write, and what is left of it after a cut.
take-past : (a b : Str) (n k : ℕ) → n ≡ length a + k → take n (a ++ b) ≡ a ++ take k b
take-past [] b n k e = ap (λ m. take m b) (omega (arith, e))
take-past (x ∷ a) b zero k e = absurd (omega (arith, e))
take-past (x ∷ a) b (suc n) k e = ap (λ r. x ∷ r) (take-past a b n k (omega (arith, e)))

cut_to :
    (a t : Str) (n : ℕ)
    → length a ≤ n
    → n ≤ length t
    → take (length (a ++ drop (length a) t) - (n - length a)) (a ++ drop (length a) t)
      ≡ a ++ take (length t - n) (drop (length a) t)
cut_to a t n short enough =
    take-past a (drop (length a) t) _ (length t - n)
      (omega (arith, length-append a (drop (length a) t), length-drop (length a) t (omega arith)))

module _ (L : Libs) where
  -- The room of a new buffer beyond what was asked for.
  abbrev pub excess : ℕ → ℕ
  excess n = L.tailroom (L.create n) - n

  -- The buffer of a piece of a file: the piece, with some bytes behind it.
  abbrev pub Holds : ℕ → Str → Type 0
  Holds n piece =
      (rest : Str) × (length rest ≡ excess n)
      × (L.chunks (read_buffer L n piece) ≡ (piece ++ rest) ∷ [])

  module _ (R : FillLaws L) where
    -- All the room of a new buffer becomes data.
    roomy_chunks :
        (n : ℕ)
        → 0 < n
        → (t : Str) × (length t ≡ L.tailroom (L.create n))
          × (L.chunks (L.append_room (L.create n) (L.tailroom (L.create n))) ≡ t ∷ [])
    roomy_chunks n positive = R.chunks-append_room (L.create n) [] (R.chunks-create n)

    pub read_buffer-Holds : (n : ℕ) (piece : Str) → 0 < n → length piece ≤ n → Holds n piece
    unfolding read_buffer head_length
    read_buffer-Holds n piece positive fits =
        let (t, room, e) = roomy_chunks n positive in
        let enough : n ≤ length t = subst (λ k. n ≤ k) (sym room) (R.tailroom-create n) in
        let fits_t : length piece ≤ length t = omega arith in
        let w =
          R.chunks-write_data (L.append_room (L.create n) (L.tailroom (L.create n))) t piece e
            fits_t in
        let size = length-drop (length piece) t fits_t in
        rw (R.chunks-create n, head_length, ltb_of_lt 0 n positive)
          (elim (Bool-cases (ltb (length piece) n)) [
            | inl short ↦ rw short (
              take (length t - n) (drop (length piece) t),
              length-take (length t - n) (drop (length piece) t)
                    (omega (arith, size, lt_of_ltb _ _ short))
                  ∙ ap (λ k. k - n) room,
              R.chunks-trim_end _ _ (n - length piece) w
                    (omega (arith, length-append piece (drop (length piece) t), size))
                  ∙ ap (λ r. r ∷ []) (cut_to piece t n fits enough),
            )
            | inr full ↦
                rw full (drop (length piece) t, omega (arith, size, room, le_of_ltb _ _ full), w)
          ])
