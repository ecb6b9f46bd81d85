-- ===== src/Streaming/Sent.antt =====
-- The tasks of a response, in their order, and the calls on the builder that they stand for.
use nozomi.Common.{
  map-append, ℕ, ◌<◌, ◌≡◌, sym, ap, subst, ◌∙◌, false, List, [], ◌∷◌, ◌++◌, map, append-nil,
  append_assoc, arith, ◌==◌, flatten, All, All-append,
}
use nozomi.Libs.{Libs}
use nozomi.Libs.Builder.{BuilderCall}
use nozomi.Http.{Response}
use nozomi.Streaming.{Task, headers_task, body_task, eof_task, delete_task, head_length, calls_of}
use nozomi.Streaming.Lifetime.{Phase, started, ended, completed}

pub pos_of_eqb : (n : ℕ) → (n == 0) ≡ false → 0 < n
pos_of_eqb n h = ground arith

module _ (L : Libs) where
  -- The calls on the builder that tasks stand for.
  abbrev pub render : List (Task L) → List (BuilderCall L)
  render ts = flatten (map (calls_of L) ts)

  abbrev pub IsBody : L.IOBuf → Type 0
  IsBody buf = 0 < head_length L buf

  -- The tasks of a response, up to a phase: the headers, buffers that are not empty, the end.
  abbrev pub IsUpTo : Phase → List (Task L) → Type 0
  IsUpTo started ts =
      (response : Response L) × (bodies : List L.IOBuf) × (ts
        ≡ headers_task response ∷ map body_task bodies)
      × All IsBody bodies
  IsUpTo ended ts =
      (response : Response L) × (bodies : List L.IOBuf) × (ts
        ≡ headers_task response ∷ (map body_task bodies ++ eof_task ∷ []))
      × All IsBody bodies
  IsUpTo _ ts = ts ≡ []

  -- A response that was closed may have come to any phase.
  abbrev pub IsSentIn : Phase → List (Task L) → Type 0
  IsSentIn completed ts = (p : Phase) × IsUpTo p ts
  IsSentIn p ts = IsUpTo p ts

  abbrev pub IsSend : Task L → Type 0
  IsSend delete_task = ⊥
  IsSend _ = Unit

  abbrev pub Logged : List (BuilderCall L) → List (Task L) → List (Task L) → Type 0
  Logged calls queue sent = render sent ≡ calls ++ render queue

  pub same_sent : (P : List (Task L) → Type 0) (sent : List (Task L)) → P sent → P (sent ++ [])
  same_sent P sent h = subst P (sym (append-nil sent)) h

  pub render_last :
      (ts : List (Task L)) (t : Task L) → render (ts ++ t ∷ []) ≡ render ts ++ calls_of L t
  render_last [] t = append-nil (calls_of L t)
  render_last (u ∷ ts) t =
      ap (λ cs. calls_of L u ++ cs) (render_last ts t)
      ∙ sym (append_assoc (calls_of L u) (render ts) (calls_of L t))

  pub Logged-post :
      (calls : List (BuilderCall L)) (queue sent : List (Task L)) (t : Task L)
      → Logged calls queue sent
      → Logged calls (queue ++ t ∷ []) (sent ++ t ∷ [])
  Logged-post calls queue sent t h =
      render_last sent t
      ∙ ap (λ cs. cs ++ calls_of L t) h
      ∙ append_assoc calls (render queue) (calls_of L t)
      ∙ ap (λ cs. calls ++ cs) (sym (render_last queue t))

  pub Logged-run :
      (calls : List (BuilderCall L)) (t : Task L) (queue sent : List (Task L))
      → Logged calls (t ∷ queue) sent
      → Logged (calls ++ calls_of L t) queue sent
  Logged-run calls t queue sent h = h ∙ sym (append_assoc calls (calls_of L t) (render queue))

  pub IsUpTo-body :
      (sent : List (Task L)) (buf : L.IOBuf)
      → IsBody buf
      → IsUpTo started sent
      → IsUpTo started (sent ++ body_task buf ∷ [])
  IsUpTo-body sent buf h (response, bodies, e, all) = (
    response,
    bodies ++ buf ∷ [],
    ap (λ ts. ts ++ body_task buf ∷ []) e
        ∙ ap (λ ts. headers_task response ∷ ts)
            (sym (map-append (λ b. body_task b) bodies (buf ∷ []))),
    All-append IsBody bodies (buf ∷ []) all (h, tt),
  )

  pub IsUpTo-eof :
      (sent : List (Task L)) → IsUpTo started sent → IsUpTo ended (sent ++ eof_task ∷ [])
  IsUpTo-eof sent (response, bodies, e, all) =
      (response, bodies, ap (λ ts. ts ++ eof_task ∷ []) e, all)

  pub Logged-closing :
      (calls : List (BuilderCall L)) (queue sent : List (Task L))
      → Logged calls queue sent
      → Logged calls (queue ++ delete_task ∷ []) sent
  unfolding calls_of
  Logged-closing calls queue sent l =
      l ∙ ap (λ cs. calls ++ cs) (sym (render_last queue delete_task ∙ append-nil (render queue)))
