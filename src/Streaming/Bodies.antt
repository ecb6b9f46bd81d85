-- ===== src/Streaming/Bodies.antt =====
-- The bytes of the bodies that a builder is given.
use nozomi.Common.{
  Bool, true, false, append-nil, if◌then◌else◌, ℕ, ◌≡◌, refl, sym, ap, ◌∙◌, inl, inr, List, [], ◌∷◌,
  ◌++◌, append_assoc, ◌==◌, Bool-cases, flatten, Str,
}
use nozomi.Libs.{Libs}
use nozomi.Libs.Laws.{BufferLaws}
use nozomi.Libs.Builder.{BuilderCall, body, header_calls, status, send, send_with_eom, header}
use nozomi.Http.{response_of_status, get_body, Response}
use nozomi.Streaming.{headers_task, calls_of, head_length}

module _ (L : Libs) where
  -- The bytes of the bodies that a builder was given, in order.
  abbrev pub body_bytes : List (BuilderCall L) → Str
  body_bytes [] = []
  body_bytes (body buf ∷ calls) = flatten (L.chunks buf) ++ body_bytes calls
  body_bytes (_ ∷ calls) = body_bytes calls

  pub body_bytes-append :
      (xs ys : List (BuilderCall L)) → body_bytes (xs ++ ys) ≡ body_bytes xs ++ body_bytes ys
  body_bytes-append [] ys = refl
  body_bytes-append (body buf ∷ xs) ys =
      ap (λ r. flatten (L.chunks buf) ++ r) (body_bytes-append xs ys)
      ∙ sym (append_assoc (flatten (L.chunks buf)) (body_bytes xs) (body_bytes ys))
  body_bytes-append (status n ∷ xs) ys = body_bytes-append xs ys
  body_bytes-append (header k v ∷ xs) ys = body_bytes-append xs ys
  body_bytes-append (send ∷ xs) ys = body_bytes-append xs ys
  body_bytes-append (send_with_eom ∷ xs) ys = body_bytes-append xs ys

  body_bytes-header_calls :
      (headers : List (L.HeaderKey × Str)) → body_bytes (header_calls L headers) ≡ []
  body_bytes-header_calls [] = refl
  body_bytes-header_calls ((k, v) ∷ rest) = body_bytes-header_calls rest

  -- The body of a response is given to the builder, unless its first buffer is empty.
  pub head_bytes :
      (r : Response L)
      → body_bytes (calls_of L (headers_task r))
        ≡ (if head_length L (get_body L r) == 0 then [] else flatten (L.chunks (get_body L r)))
  unfolding calls_of
  head_bytes r =
      let b = get_body L r in
      let headers = header_calls L (L.headers r.message) in
      elim (Bool-cases (head_length L b == 0)) [
        | inl empty ↦
            rw (empty, calls_of)
              (body_bytes-append headers (send ∷ [])
                ∙ ap (λ s. s ++ []) (body_bytes-header_calls (L.headers r.message)))
        | inr full ↦
            rw (full, calls_of)
              (body_bytes-append headers (body b ∷ send ∷ [])
                ∙ ap (λ s. s ++ (flatten (L.chunks b) ++ []))
                    (body_bytes-header_calls (L.headers r.message))
                ∙ append-nil (flatten (L.chunks b)))
      ]

  if_nil : (b : Bool) (s : Str) → s ≡ [] → (if b then [] else s) ≡ []
  if_nil true s e = refl
  if_nil false s e = e

  -- The headers of a response without a body.
  pub body_bytes_of_head :
      (r : Response L)
      → flatten (L.chunks (get_body L r)) ≡ []
      → body_bytes (calls_of L (headers_task r)) ≡ []
  body_bytes_of_head r e =
      head_bytes r
      ∙ if_nil (head_length L (get_body L r) == 0) (flatten (L.chunks (get_body L r))) e

  pub empty-body :
      (B : BufferLaws L) (code : ℕ)
      → flatten (L.chunks (get_body L (response_of_status L code))) ≡ []
  unfolding get_body response_of_status
  empty-body B code = B.bytes-clone (L.create 0) ∙ B.bytes-create
