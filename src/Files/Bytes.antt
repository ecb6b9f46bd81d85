-- ===== src/Files/Bytes.antt =====
-- Which bytes of a file the builder is given.
use nozomi.Common.{
  some_inj, ℕ, suc, ◌+◌, ◌*◌, ◌<◌, ◌≡◌, refl, sym, ap, subst, ◌∙◌, ◌≢◌, true, false, some, List, [],
  ◌∷◌, ◌++◌, append-nil, arith, length, flatten, length-append, All, Str, ok,
}
use nozomi.Libs.{Libs, readable}
use nozomi.Libs.Laws.{FillLaws, BufferLaws}
use nozomi.Http.{response_of_status}
use nozomi.Streaming.{Task, headers_task, eof_task, calls_of}
use nozomi.Streaming.Sent.{render}
use nozomi.Streaming.Bodies.{body_bytes, body_bytes-append, body_bytes_of_head, empty-body}
use nozomi.Files.{FileHandler, read_buffer, is_unmodified, on_eom}
use nozomi.Files.Buffers.{excess}
use nozomi.Files.Reading.{IsPiece, IsDelivery, pieces, nil_of_length}
use nozomi.Files.Answers.{
  Answer, served, answered, on_eom-Answer, not_a_file, unmodified, unreadable,
}

module _ (L : Libs) where
  -- The bodies of the pieces of a file.
  bytes_of_pieces : ℕ → List Str → Str
  bytes_of_pieces n bodies = body_bytes L (render L (pieces L n bodies ++ eof_task ∷ []))

  length_of_pieces :
      (n : ℕ) (bodies : List Str)
      → All (IsPiece L n) bodies
      → length (bytes_of_pieces n bodies) ≡ length (flatten bodies) + length bodies * excess L n
  unfolding bytes_of_pieces calls_of
  length_of_pieces n [] h = omega arith
  length_of_pieces n (b ∷ bodies) ((_, _, (rest, more, e)), h) =
      let ih = length_of_pieces n bodies h in
      let q : flatten (L.chunks (read_buffer L n b)) ≡ b ++ rest =
        ap flatten e ∙ append-nil (b ++ rest) in
      rw q (
        grind (
          arith,
          ih,
          more,
          length-append (b ++ rest) (bytes_of_pieces n bodies),
          length-append b rest,
          length-append b (flatten bodies),
        ))

  product_pos : (k x : ℕ) → 0 < x → 0 < suc k * x
  product_pos k x h = grind arith

  longer_pieces :
      (n : ℕ) (bodies : List Str)
      → 0 < excess L n
      → flatten bodies ≢ []
      → All (IsPiece L n) bodies
      → length (flatten bodies) < length (bytes_of_pieces n bodies)
  longer_pieces n [] more something h = absurd (something refl)
  longer_pieces n (b ∷ bodies) more something h =
      omega
        (arith, length_of_pieces n (b ∷ bodies) h, product_pos (length bodies) (excess L n) more)

  pieces_exact :
      (n : ℕ) (bodies : List Str)
      → excess L n ≡ 0
      → All (IsPiece L n) bodies
      → bytes_of_pieces n bodies ≡ flatten bodies
  unfolding bytes_of_pieces calls_of
  pieces_exact n [] exact h = refl
  pieces_exact n (b ∷ bodies) exact ((_, _, (rest, more, e)), h) =
      let none_behind : rest ≡ [] = nil_of_length rest (more ∙ exact) in
      ap (λ s. s ++ bytes_of_pieces n bodies)
        (ap flatten e ∙ append-nil (b ++ rest) ∙ ap (λ r. b ++ r) none_behind ∙ append-nil b)
      ∙ ap (λ s. b ++ s) (pieces_exact n bodies exact h)

  -- The tasks of a file that is served.
  Served : FileHandler L → Str → List (Task L) → Type 0
  Served handler text ts =
      (bodies : List Str) × (body_bytes L (render L ts)
        ≡ bytes_of_pieces handler.read_buffer_size bodies)
      × IsDelivery L handler.read_buffer_size text bodies

  Answer-Served :
      (B : BufferLaws L) (handler : FileHandler L) (text : Str) {ts : List (Task L)}
      → L.is_regular_file handler.path ≡ ok true
      → is_unmodified L handler ≡ false
      → L.contents handler.path ≡ some (readable text)
      → Answer L handler ts
      → Served handler text ts
  unfolding Served bytes_of_pieces
  Answer-Served B handler text regular new found (not_a_file e) = cc (regular, e)
  Answer-Served B handler text regular new found (unmodified _ old) = cc (new, old)
  Answer-Served B handler text regular new found (unreadable _ _ missing) = cc (found, missing)
  Answer-Served B handler text regular new found (served text' bodies _ _ found' d) =
      let r = response_of_status L 200 in
      (
        bodies,
        body_bytes-append L (calls_of L (headers_task r)) _
            ∙ ap (λ s. s ++ bytes_of_pieces handler.read_buffer_size bodies)
                (body_bytes_of_head L r (empty-body L B 200)),
        subst (λ t. IsDelivery L handler.read_buffer_size t bodies)
            (ap (λ s. s.text) (some_inj (sym found' ∙ found))) d,
      )

  Served-bytes :
      (handler : FileHandler L) (text : Str) (ts : List (Task L))
      → L.tailroom (L.create handler.read_buffer_size) ≡ handler.read_buffer_size
      → Served handler text ts
      → body_bytes L (render L ts) ≡ text
  unfolding Served
  Served-bytes handler text ts exact (bodies, same, (whole, held)) =
      same ∙ pieces_exact handler.read_buffer_size bodies (omega (arith, exact)) held ∙ whole

  -- The bodies of the answer for a file that is served, when its buffers get no more room than was
  -- asked for.
  pub Answer-bytes :
      (B : BufferLaws L) (handler : FileHandler L) (text : Str) {ts : List (Task L)}
      → L.tailroom (L.create handler.read_buffer_size) ≡ handler.read_buffer_size
      → L.is_regular_file handler.path ≡ ok true
      → is_unmodified L handler ≡ false
      → L.contents handler.path ≡ some (readable text)
      → Answer L handler ts
      → body_bytes L (render L ts) ≡ text
  Answer-bytes B handler text {ts} exact regular new found answer =
      Served-bytes handler text ts exact (Answer-Served B handler text regular new found answer)

  module _ (R : FillLaws L) (B : BufferLaws L) where
    -- What is queued for a file that is served.
    on_eom-Served :
        (fuel : ℕ) (handler : FileHandler L) (text : Str)
        → 0 < handler.read_buffer_size
        → length text < fuel
        → handler.base.queue ≡ []
        → L.is_regular_file handler.path ≡ ok true
        → is_unmodified L handler ≡ false
        → L.contents handler.path ≡ some (readable text)
        → (done : FileHandler L) × (on_eom L fuel handler ≡ ok (some done))
          × Served handler text done.base.queue
    on_eom-Served fuel handler text positive enough idle regular new found =
        let (ts, e, answer) =
          on_eom-Answer L R fuel handler true positive
            (λ s e.
              subst (λ s. (length s.text < fuel) × (s.fails ≡ false)) (some_inj (sym found ∙ e))
                (enough, refl))
            regular in
        (
          answered L handler ts,
          e,
          subst (Served handler text) (ap (λ q. q ++ ts) (sym idle))
              (Answer-Served B handler text regular new found answer),
        )

    -- A file that is served, by a handler whose buffers get no more room than was asked for: the bodies
    -- that the builder is given are the bytes of the file, each once and in order.
    -- It is assumed of the handler that its buffer is not empty and that nothing is queued, of the file
    -- that it is regular, newer than the date of the request and opens, with fewer bytes than the fuel,
    -- and can be read to its end, and that buffers behave as documented.
    pub on_eom-bytes :
        (fuel : ℕ) (handler : FileHandler L) (text : Str)
        → 0 < handler.read_buffer_size
        → length text < fuel
        → handler.base.queue ≡ []
        → L.is_regular_file handler.path ≡ ok true
        → is_unmodified L handler ≡ false
        → L.contents handler.path ≡ some (readable text)
        → L.tailroom (L.create handler.read_buffer_size) ≡ handler.read_buffer_size
        → (done : FileHandler L) × (on_eom L fuel handler ≡ ok (some done))
          × (body_bytes L (render L done.base.queue) ≡ text)
    on_eom-bytes fuel handler text positive enough idle regular new found exact =
        let (done, e, sent) =
          on_eom-Served fuel handler text positive enough idle regular new found in
        (done, e, Served-bytes handler text done.base.queue exact sent)

    -- When a new buffer has more room than was asked for, as folly allows, a file that is not empty is
    -- served with more bytes than it has: the builder is given bodies that are longer than the file.
    -- It is assumed of the handler that its buffer is not empty and that nothing is queued, of the file
    -- that it is regular, newer than the date of the request and opens, with fewer bytes than the fuel,
    -- and can be read to its end, and that buffers behave as documented.
    pub on_eom-excess :
        (fuel : ℕ) (handler : FileHandler L) (text : Str)
        → 0 < handler.read_buffer_size
        → length text < fuel
        → handler.base.queue ≡ []
        → L.is_regular_file handler.path ≡ ok true
        → is_unmodified L handler ≡ false
        → L.contents handler.path ≡ some (readable text)
        → handler.read_buffer_size < L.tailroom (L.create handler.read_buffer_size)
        → text ≢ []
        → (done : FileHandler L) × (on_eom L fuel handler ≡ ok (some done))
          × (length text < length (body_bytes L (render L done.base.queue)))
    unfolding Served
    on_eom-excess fuel handler text positive enough idle regular new found more something =
        let (done, e, (bodies, same, (whole, held))) =
          on_eom-Served fuel handler text positive enough idle regular new found in
        (
          done,
          e,
          subst (λ s. length text < length s) (sym same)
              (subst (λ t. length t < length (bytes_of_pieces handler.read_buffer_size bodies))
                whole
                (longer_pieces handler.read_buffer_size bodies (omega (arith, more))
                  (λ none_read. something (sym whole ∙ none_read)) held)),
        )
