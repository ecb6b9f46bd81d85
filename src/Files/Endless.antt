-- ===== src/Files/Endless.antt =====
-- When the read loop of `onEOM` comes to its end.
use nozomi.Common.{
  some_inj, ℕ, zero, suc, ◌<◌, ◌≡◌, refl, sym, subst, ◌∙◌, ◌↔◌, ◌⊎◌, inl, inr, Bool, true, false,
  not, ◌&&◌, none, some, arith, ltb, Bool-cases, length, Str, ok,
}
use nozomi.Libs.{Libs, Stream}
use nozomi.Libs.Laws.{FillLaws}
use nozomi.Http.{response_of_status}
use nozomi.Streaming.{send_body, send_response_headers}
use nozomi.Files.{FileHandler, on_base, read_buffer, read_loop, send_file, is_unmodified, on_eom}
use nozomi.Files.Answers.{answered, on_eom-Answer}

-- The loop goes on after every read.
goes_on : (m n : ℕ) (fails : Bool) → (n ≡ 0) ⊎ (fails ≡ true) → (ltb m n && not fails) ≡ false
goes_on m n fails (inl e) = rw e (ground arith)
goes_on m n fails (inr e) = rw e (ground arith)

module _ (L : Libs) where
  read_loop-none :
      (fuel : ℕ) (rest : Str) (fails : Bool) (handler : FileHandler L)
      → (handler.read_buffer_size ≡ 0) ⊎ (fails ≡ true)
      → read_loop L fuel rest fails handler ≡ none
  unfolding read_loop
  read_loop-none zero rest fails handler h = refl
  read_loop-none (suc fuel) rest fails handler h =
      rw (goes_on (length rest) handler.read_buffer_size fails h) (
        read_loop-none fuel _ fails
          (on_base L (send_body L (read_buffer L handler.read_buffer_size _)) handler) h)

  on_eom-none :
      (fuel : ℕ) (handler : FileHandler L) (stream : Stream)
      → L.is_regular_file handler.path ≡ ok true
      → is_unmodified L handler ≡ false
      → L.contents handler.path ≡ some stream
      → (handler.read_buffer_size ≡ 0) ⊎ (stream.fails ≡ true)
      → on_eom L fuel handler ≡ ok none
  unfolding on_eom send_file
  on_eom-none fuel handler stream regular new found h =
      rw
        (
          regular,
          new,
          found,
          send_file,
          read_loop-none fuel stream.text stream.fails
              (on_base L (send_response_headers L (response_of_status L 200)) handler) h,
        )
        refl

  pos-cases : (n : ℕ) → (n ≡ 0) ⊎ (0 < n)
  pos-cases zero = inl refl
  pos-cases (suc n) = inr (omega arith)

  -- For a file that is newer than the date of the request and opens, `onEOM` comes to its end, with some
  -- fuel, exactly when the buffer is not empty and the file can be read to its end: a buffer of size 0 and a
  -- read error keep it in the loop for ever. It is assumed that buffers behave as documented.
  pub on_eom_ends :
      (R : FillLaws L) (handler : FileHandler L) (stream : Stream)
      → L.is_regular_file handler.path ≡ ok true
      → is_unmodified L handler ≡ false
      → L.contents handler.path ≡ some stream
      → ((fuel : ℕ) × (done : FileHandler L) × (on_eom L fuel handler ≡ ok (some done)))
        ↔ ((0 < handler.read_buffer_size) × (stream.fails ≡ false))
  on_eom_ends R handler stream regular new found = (
    λ (fuel, done, e). elim (pos-cases handler.read_buffer_size) [
      | inl none_there ↦ cc (e, on_eom-none fuel handler stream regular new found (inl none_there))
      | inr positive ↦ elim (Bool-cases stream.fails) [
        | inl failing ↦ cc (e, on_eom-none fuel handler stream regular new found (inr failing))
        | inr fine ↦ (positive, fine)
      ]
    ],
    λ (positive, fine).
        let (ts, e, answer) =
          on_eom-Answer L R (suc (length stream.text)) handler true positive
            (λ s e'.
              subst (λ s. (length s.text < suc (length stream.text)) × (s.fails ≡ false))
                (some_inj (sym found ∙ e')) (omega arith, fine))
            regular in
        (suc (length stream.text), answered L handler ts, e),
  )
