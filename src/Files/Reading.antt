-- ===== src/Files/Reading.antt =====
-- The read loop of `onEOM`: what it sends, and how much fuel it needs.
use nozomi.Common.{
  flatten-append, map-append, length-take, ℕ, zero, suc, ◌+◌, ◌≤◌, ◌<◌, ◌≡◌, refl, sym, ap, ◌∙◌,
  inl, inr, true, false, some, List, [], ◌∷◌, ◌++◌, map, append-nil, append_assoc, arith, ltb,
  Bool-cases, length, take, drop, flatten, length-append, take-append-drop, All, Str, min, subst,
  take-length-append, All-append, ◌==◌,
}
use nozomi.Libs.{Libs}
use nozomi.Libs.Laws.{FillLaws}
use nozomi.Streaming.{Task, body_task, head_length, send_body}
use nozomi.Files.{FileHandler, on_base, read_buffer, read_loop}
use nozomi.Files.Buffers.{lt_of_ltb, le_of_ltb, length-drop, excess, Holds, read_buffer-Holds}

le_of_lt : (a b : ℕ) → a < b → a ≤ b
le_of_lt a b h = omega arith

le_of_eq : (a b : ℕ) → a ≡ b → a ≤ b
le_of_eq a b h = omega (arith, h)

min_of_lt : (m n : ℕ) → m < n → min n m ≡ m
min_of_lt m n h = omega arith

min_of_le : (m n : ℕ) → n ≤ m → min n m ≡ n
min_of_le m n h = omega arith

take_whole : (s : Str) → take (length s) s ≡ s
take_whole s = ap (take (length s)) (sym (append-nil s)) ∙ take-length-append s []

pub nil_of_length : (s : Str) → length s ≡ 0 → s ≡ []
nil_of_length [] e = refl
nil_of_length (c ∷ s) e = absurd (omega (arith, e))

eq_of_eqb : (n : ℕ) → (n == 0) ≡ true → n ≡ 0
eq_of_eqb n h = ground arith

pos_of_eqb : (n : ℕ) → (n == 0) ≡ false → 0 < n
pos_of_eqb n h = ground arith

module _ (L : Libs) where
  -- A piece of a file that is sent: it fits in the buffer, which holds it and what else it has room for.
  abbrev pub IsPiece : ℕ → Str → Type 0
  IsPiece n b = (length b ≤ n) × (0 < length b + excess L n) × Holds L n b

  -- The texts are the pieces of `s`, in order.
  abbrev pub IsDelivery : ℕ → Str → List Str → Type 0
  IsDelivery n s bodies = (flatten bodies ≡ s) × All (IsPiece n) bodies

  IsDelivery-append :
      (n : ℕ) (s t : Str) (xs ys : List Str)
      → IsDelivery n s xs
      → IsDelivery n t ys
      → IsDelivery n (s ++ t) (xs ++ ys)
  IsDelivery-append n s t xs ys (e, h) (f, k) =
      (flatten-append xs ys ∙ (rw (e, f) refl), All-append _ xs ys h k)

  -- The tasks of the pieces, each in its buffer.
  abbrev pub pieces : ℕ → List Str → List (Task L)
  pieces n bodies = map (λ b. body_task (read_buffer L n b)) bodies

  abbrev pub queued : List (Task L) → FileHandler L → FileHandler L
  queued ts handler = record handler {
    base = record handler.base { queue = handler.base.queue ++ ts };
  }

  queued_nil : (handler : FileHandler L) → handler ≡ queued [] handler
  queued_nil handler =
      ap (λ ts. record handler { base = record handler.base { queue = ts } })
        (sym (append-nil handler.base.queue))

  queued-queued :
      (ts us : List (Task L)) (handler : FileHandler L)
      → queued us (queued ts handler) ≡ queued (ts ++ us) handler
  queued-queued ts us handler =
      ap (λ vs. record handler { base = record handler.base { queue = vs } })
        (append_assoc handler.base.queue ts us)

  module _ (R : FillLaws L) where
    pub head_length-read_buffer :
        (n : ℕ) (s : Str) → Holds L n s → head_length L (read_buffer L n s) ≡ length s + excess L n
    unfolding head_length
    head_length-read_buffer n s (rest, more, e) =
        rw (e, head_length) (length-append s rest ∙ ap (λ k. length s + k) more)

    -- What is read is queued, unless the buffer holds nothing.
    send_body-queued :
        (n : ℕ) (s : Str) (handler : FileHandler L)
        → 0 < n
        → length s ≤ n
        → (bodies : List Str) × (on_base L (send_body L (read_buffer L n s)) handler
            ≡ queued (pieces n bodies) handler)
          × IsDelivery n s bodies
    unfolding send_body
    send_body-queued n s handler positive h =
        let held = read_buffer-Holds L R n s positive h in
        let size = head_length-read_buffer n s held in
        elim (Bool-cases (head_length L (read_buffer L n s) == 0)) [
          | inl empty ↦
              let none_read : s ≡ [] = nil_of_length s (omega (arith, size, eq_of_eqb _ empty)) in
              ([], rw (empty, send_body) (queued_nil handler), (sym none_read, tt))
          | inr full ↦ (
            s ∷ [],
            rw (full, send_body) refl,
            (append-nil s, ((h, subst (λ k. 0 < k) size (pos_of_eqb _ full), held), tt)),
          )
        ]

    drop_fits :
        (n fuel : ℕ) (s : Str)
        → 0 < n
        → length s < suc fuel
        → n ≤ length s
        → length (drop n s) < fuel
    drop_fits n fuel s positive h le = omega (arith, length-drop n s le)

    -- With a buffer that is not empty and more fuel than bytes, the loop ends, and has sent the text.
    pub read_loop-IsDelivery :
        (fuel : ℕ) (rest : Str) (handler : FileHandler L)
        → 0 < handler.read_buffer_size
        → length rest < fuel
        → (bodies : List Str) × (read_loop L fuel rest false handler
            ≡ some (queued (pieces handler.read_buffer_size bodies) handler))
          × IsDelivery handler.read_buffer_size rest bodies
    unfolding read_loop
    read_loop-IsDelivery zero rest handler positive h = absurd (omega (arith, h))
    read_loop-IsDelivery (suc fuel) rest handler positive h =
        let n = handler.read_buffer_size in
        elim (Bool-cases (ltb (length rest) n)) [
          | inl short ↦
              let r = min_of_lt (length rest) n (lt_of_ltb _ _ short) in
              let (bodies, e, d) =
                send_body-queued n rest handler positive (le_of_lt _ _ (lt_of_ltb _ _ short)) in
              (bodies, rw (short, r, take_whole rest, e) refl, d)
          | inr long ↦
              let r = min_of_le (length rest) n (le_of_ltb _ _ long) in
              let full = length-take n rest (le_of_ltb _ _ long) in
              let (first, e, d) =
                send_body-queued n (take n rest) handler positive (le_of_eq _ _ full) in
              let (bodies, e', d') =
                read_loop-IsDelivery fuel (drop n rest) (queued (pieces n first) handler) positive
                  (drop_fits n fuel rest positive h (le_of_ltb _ _ long)) in
              (
                first ++ bodies,
                rw (long, r, e, e')
                    (ap some (
                      queued-queued (pieces n first) (pieces n bodies) handler
                      ∙ ap (λ ts. queued ts handler)
                          (sym (map-append (λ b. body_task (read_buffer L n b)) first bodies)))),
                subst (λ s. IsDelivery n s (first ++ bodies)) (take-append-drop n rest)
                    (IsDelivery-append n _ _ first bodies d d'),
              )
        ]
