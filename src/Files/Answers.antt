-- ===== src/Files/Answers.antt =====
-- What `onEOM` sends, in each case, and that it keeps the contract of its base class.
use nozomi.Common.{
  ℕ, ◌<◌, ◌≡◌, refl, ap, ◌∙◌, inl, inr, Bool, true, false, none, some, List, [], ◌∷◌, ◌++◌, map,
  append_assoc, Bool-cases, Option-cases, length, All, Str, ok, sym, subst,
}
use nozomi.Libs.{Libs, Stream, readable}
use nozomi.Libs.Laws.{FillLaws}
use nozomi.Http.{response_of_status}
use nozomi.Streaming.{Task, headers_task, body_task, eof_task, send_response_headers, send_eof}
use nozomi.Streaming.Lifetime.{ended}
use nozomi.Streaming.Sent.{IsBody, IsUpTo}
use nozomi.Files.{FileHandler, on_base, read_buffer, send_file, is_unmodified, on_eom}
use nozomi.Files.Reading.{
  IsDelivery, IsPiece, pieces, read_loop-IsDelivery, head_length-read_buffer,
}

module _ (L : Libs) where
  -- The tasks that answer a request for the file of a handler.
  pub data Answer (handler : FileHandler L) : List (Task L) → Type 0 where
    not_a_file :
        L.is_regular_file handler.path ≡ ok false
        → Answer handler (headers_task (response_of_status L 404) ∷ eof_task ∷ [])
    unmodified :
        L.is_regular_file handler.path ≡ ok true
        → is_unmodified L handler ≡ true
        → Answer handler (headers_task (response_of_status L 304) ∷ eof_task ∷ [])
    unreadable :
        L.is_regular_file handler.path ≡ ok true
        → is_unmodified L handler ≡ false
        → L.contents handler.path ≡ none
        → Answer handler (headers_task (response_of_status L 404) ∷ eof_task ∷ [])
    served :
        (text : Str) (bodies : List Str)
        → L.is_regular_file handler.path ≡ ok true
        → is_unmodified L handler ≡ false
        → L.contents handler.path ≡ some (readable text)
        → IsDelivery L handler.read_buffer_size text bodies
        → Answer handler (
            headers_task (response_of_status L 200)
            ∷ (pieces L handler.read_buffer_size bodies ++ eof_task ∷ []))

  -- The handler after an answer.
  abbrev pub answered : FileHandler L → List (Task L) → FileHandler L
  answered handler ts = record handler {
    base = record handler.base { sent_headers = true; queue = handler.base.queue ++ ts };
  }

  abbrev IsAnswered : ℕ → FileHandler L → Type 0
  IsAnswered fuel handler =
      (ts : List (Task L)) × (on_eom L fuel handler ≡ ok (some (answered handler ts)))
      × Answer handler ts

  same_tasks :
      (handler : FileHandler L) {ts : List (Task L)} (us : List (Task L))
      → ts ≡ handler.base.queue ++ us
      → ok
          (some (record handler { base = record handler.base { sent_headers = true; queue = ts } }))
        ≡ ok (some (answered handler us))
  same_tasks handler us e =
      ap
        (λ ts. ok (
          some (record handler { base = record handler.base { sent_headers = true; queue = ts } })))
        e

  module _ (R : FillLaws L) where
    served_IsAnswered :
        (fuel : ℕ) (handler : FileHandler L) (text : Str)
        → 0 < handler.read_buffer_size
        → length text < fuel
        → L.is_regular_file handler.path ≡ ok true
        → is_unmodified L handler ≡ false
        → L.contents handler.path ≡ some (readable text)
        → IsAnswered fuel handler
    unfolding on_eom send_eof send_file send_response_headers
    served_IsAnswered fuel handler text positive enough regular modified found =
        let (bodies, e, d) =
          read_loop-IsDelivery L R fuel text
            (on_base L (send_response_headers L (response_of_status L 200)) handler) positive
            enough in
        (
          _,
          rw (regular, modified, found, send_file, e)
              (same_tasks handler _ (
                append_assoc (handler.base.queue ++ headers_task (response_of_status L 200) ∷ [])
                  (pieces L handler.read_buffer_size bodies) (eof_task ∷ [])
                ∙ append_assoc handler.base.queue _ _)),
          served text bodies regular modified found d,
        )

    -- With a buffer that is not empty and more fuel than the file has bytes, `onEOM` answers once, and
    -- ends the response: 404 for what is not a regular file or cannot be opened, 304 for a file that
    -- is not newer than the date of the request, and else 200 with the pieces of the file, which in
    -- order are its contents, none of them longer than was asked of the buffer. The buffer of a piece
    -- holds it, and behind it as many bytes as the buffer has room beyond that; no buffer is empty.
    -- It is assumed that the question whether the path is a regular file does not throw, that a file
    -- that opens can be read to its end, and that buffers behave as documented.
    pub on_eom-Answer :
        (fuel : ℕ) (handler : FileHandler L) (regular : Bool)
        → 0 < handler.read_buffer_size
        → ((stream : Stream)
            → L.contents handler.path ≡ some stream
            → (length stream.text < fuel) × (stream.fails ≡ false))
        → L.is_regular_file handler.path ≡ ok regular
        → (ts : List (Task L)) × (on_eom L fuel handler ≡ ok (some (answered handler ts)))
          × Answer handler ts
    unfolding on_eom send_eof send_file send_response_headers
    on_eom-Answer fuel handler false positive enough e =
        (_, rw e (same_tasks handler _ (append_assoc handler.base.queue _ _)), not_a_file e)
    on_eom-Answer fuel handler true positive enough e =
        elim (Bool-cases (is_unmodified L handler)) [
          | inl old ↦ (
            _,
            rw (e, old) (same_tasks handler _ (append_assoc handler.base.queue _ _)),
            unmodified e old,
          )
          | inr new ↦ elim (Option-cases (L.contents handler.path)) [
            | inl missing ↦ (
              _,
              rw (e, new, missing, send_file)
                  (same_tasks handler _ (append_assoc handler.base.queue _ _)),
              unreadable e new missing,
            )
            | inr (stream, found) ↦
                let (short, whole) = enough stream found in
                served_IsAnswered fuel handler stream.text positive short e new
                  (found ∙ ap (λ b. some (record { text = stream.text; fails = b })) whole)
          ]
        ]

    pieces-IsBody :
        (n : ℕ) (bodies : List Str)
        → All (IsPiece L n) bodies
        → All (IsBody L) (map (read_buffer L n) bodies)
    pieces-IsBody n [] h = tt
    pieces-IsBody n (b ∷ bodies) ((_, positive, held), h) = (
      subst (λ k. 0 < k) (sym (head_length-read_buffer L R n b held)) positive,
      pieces-IsBody n bodies h,
    )

    map-pieces :
        (n : ℕ) (bodies : List Str)
        → pieces L n bodies ≡ map body_task (map (read_buffer L n) bodies)
    map-pieces n [] = refl
    map-pieces n (b ∷ bodies) = ap (λ ts. body_task (read_buffer L n b) ∷ ts) (map-pieces n bodies)

    -- Every answer of `onEOM` is a whole response in the contract of the base class: the headers,
    -- buffers that are not empty, and the end. It is assumed that buffers behave as documented.
    pub Answer-IsUpTo :
        (handler : FileHandler L) (ts : List (Task L)) → Answer handler ts → IsUpTo L ended ts
    Answer-IsUpTo handler _ (not_a_file e) = (response_of_status L 404, [], refl, tt)
    Answer-IsUpTo handler _ (unmodified e old) = (response_of_status L 304, [], refl, tt)
    Answer-IsUpTo handler _ (unreadable e new missing) = (response_of_status L 404, [], refl, tt)
    Answer-IsUpTo handler _ (served text bodies e new found (whole, h)) = (
      response_of_status L 200,
      map (read_buffer L handler.read_buffer_size) bodies,
      ap (λ ts. headers_task (response_of_status L 200) ∷ (ts ++ eof_task ∷ []))
          (map-pieces handler.read_buffer_size bodies),
      pieces-IsBody handler.read_buffer_size bodies h,
    )
