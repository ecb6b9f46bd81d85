-- ===== src/Streaming/Lost.antt =====
-- Which bodies the two tests of `length()` in StreamingHTTPHandler-inl.h keep from the builder.
use nozomi.Common.{
  ℕ, ◌<◌, ◌≡◌, refl, sym, ap, ◌∙◌, ◌↔◌, ◌⊎◌, inl, inr, true, false, [], ◌∷◌, ◌++◌, append-nil,
  arith, ◌==◌, if◌then◌else◌, Bool-cases, length, flatten, length-append, Str,
}
use nozomi.Libs.{Libs}
use nozomi.Libs.Builder.{send, body}
use nozomi.Http.{get_body, Response}
use nozomi.Streaming.{StreamingHandler, headers_task, body_task, calls_of, head_length, send_body}
use nozomi.Streaming.Sent.{render, render_last}
use nozomi.Streaming.Bodies.{body_bytes, body_bytes-append, head_bytes}

no_more : (s t : Str) → s ≡ s ++ t → t ≡ []
no_more s [] e = refl
no_more s (c ∷ t) e = absurd (omega (arith, ap length e, length-append s (c ∷ t)))

pos_of_ne : (n : ℕ) → (n == 0) ≡ false → 0 < n
pos_of_ne n h = ground arith

not_pos : (n : ℕ) → (n == 0) ≡ true → ¬ (0 < n)
not_pos n h = ground arith

module _ (L : Libs) where
  -- The first buffer of the chain is not empty, or none is.
  abbrev pub IsPassed : L.IOBuf → Type 0
  IsPassed buf = (0 < head_length L buf) ⊎ (flatten (L.chunks buf) ≡ [])

  queue_bytes :
      (buf : L.IOBuf) (s : StreamingHandler L)
      → body_bytes L (render L (send_body L buf s).queue)
        ≡ body_bytes L (render L s.queue)
          ++ (if head_length L buf == 0 then [] else flatten (L.chunks buf))
  unfolding send_body calls_of
  queue_bytes buf s = elim (Bool-cases (head_length L buf == 0)) [
    | inl empty ↦ rw (empty, send_body) (sym (append-nil _))
    | inr full ↦
        rw (full, send_body)
          (ap (body_bytes L) (render_last L s.queue (body_task buf))
            ∙ body_bytes-append L (render L s.queue) (body buf ∷ send ∷ [])
            ∙ ap (λ r. body_bytes L (render L s.queue) ++ r) (append-nil (flatten (L.chunks buf))))
  ]

  kept_iff :
      (before t : Str) (n : ℕ)
      → (before ++ (if n == 0 then [] else t) ≡ before ++ t) ↔ ((0 < n) ⊎ (t ≡ []))
  kept_iff before t n = elim (Bool-cases (n == 0)) [
    | inl empty ↦ (
      λ e. inr (no_more before t (sym (append-nil before) ∙ (rw empty at e))),
      λ h. elim h [
        | inl positive ↦ absurd (not_pos n empty positive)
        | inr nothing ↦ rw (empty, nothing) refl
      ],
    )
    | inr full ↦ (λ e. inl (pos_of_ne n full), λ h. rw full refl)
  ]

  -- The bytes of a body reach the builder, in order, exactly when the first buffer of its chain is not
  -- empty or the whole chain is: both the body of the response whose headers are sent, and a buffer
  -- that is sent behind what is queued. The rest of a chain that begins with an empty buffer is lost.
  pub sent_iff :
      (response : Response L) (buf : L.IOBuf) (s : StreamingHandler L)
      → let given = get_body L response in
        let before = body_bytes L (render L s.queue) in
        ((body_bytes L (calls_of L (headers_task response)) ≡ flatten (L.chunks given))
          ↔ IsPassed given)
        × ((body_bytes L (render L (send_body L buf s).queue) ≡ before ++ flatten (L.chunks buf))
            ↔ IsPassed buf)
  sent_iff response buf s =
      let given = get_body L response in
      let before = body_bytes L (render L s.queue) in
      let head = kept_iff [] (flatten (L.chunks given)) (head_length L given) in
      let next = kept_iff before (flatten (L.chunks buf)) (head_length L buf) in
      (
        (λ e. head.0 (sym (head_bytes L response) ∙ e), λ h. head_bytes L response ∙ head.1 h),
        (λ e. next.0 (sym (queue_bytes buf s) ∙ e), λ h. queue_bytes buf s ∙ next.1 h),
      )
