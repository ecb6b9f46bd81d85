-- ===== src/Files/Interleaved.antt =====
-- The sends of an answer, while the event base runs what is queued, at any times between them.
use nozomi.Common.{
  length, ℕ, ◌<◌, ◌≡◌, refl, sym, ap, subst, ◌∙◌, ◌≢◌, false, Option, some, List, [], ◌∷◌, ◌++◌,
  map, append-nil, append_assoc, arith, ◌==◌, All,
}
use nozomi.Libs.{Libs}
use nozomi.Libs.Laws.{FillLaws}
use nozomi.Http.{Response}
use nozomi.Libs.Builder.{BuilderCall}
use nozomi.Streaming.{Task, headers_task, body_task, eof_task, head_length}
use nozomi.Streaming.Lifetime.{
  received, started, ended, Session, Action, send_headers, send_data, finish, run, advance, Reach,
  step,
}
use nozomi.Streaming.Sent.{IsBody, IsSentIn, render}
use nozomi.Streaming.Protocol.{Reach-IsInOrder}
use nozomi.Streaming.Drained.{in_order_of, drain, drain-render}
use nozomi.Files.{FileHandler}
use nozomi.Files.Answers.{Answer, Answer-IsUpTo}

not_empty : (n : ℕ) → 0 < n → (n == 0) ≡ false
not_empty n h = ground arith

module _ (L : Libs) where
  -- The actions are the sends of the tasks, in order, with runs of the event base between them.
  pub data Sends : List (Action L) → List (Task L) → Type 0 where
    over : Sends [] []
    runs :
        {actions : List (Action L)} {ts : List (Task L)}
        → Sends actions ts
        → Sends (run ∷ actions) ts
    heads :
        {actions : List (Action L)} {ts : List (Task L)} (r : Response L)
        → Sends actions ts
        → Sends (send_headers r ∷ actions) (headers_task r ∷ ts)
    data_next :
        {actions : List (Action L)} {ts : List (Task L)} (buf : L.IOBuf)
        → Sends actions ts
        → Sends (send_data buf ∷ actions) (body_task buf ∷ ts)
    ends :
        {actions : List (Action L)} {ts : List (Task L)}
        → Sends actions ts
        → Sends (finish ∷ actions) (eof_task ∷ ts)

  abbrev pub perform : List (Action L) → Session L → Session L
  perform [] s = s
  perform (a ∷ actions) s = perform actions (advance L a s)

  -- The session after the sends.
  abbrev IsSentFrom : Option L.EventBase → Session L → List (Action L) → List (Task L) → Type 0
  IsSentFrom evb s actions ts =
      Reach L evb (perform actions s)
      × ((perform actions s).phase ≡ ended)
      × ((perform actions s).sent ≡ s.sent ++ ts)

  IsSentFrom-run :
      (evb : Option L.EventBase) (s : Session L) (actions : List (Action L)) (ts : List (Task L))
      → IsSentFrom evb (advance L run s) actions ts
      → IsSentFrom evb s (run ∷ actions) ts
  IsSentFrom-run evb s actions ts (r, p, e) = (r, p, e ∙ ap (λ us. us ++ ts) (append-nil s.sent))

  rest_runs :
      {evb : Option L.EventBase} {actions : List (Action L)} {ts : List (Task L)} (s : Session L)
      → Sends actions ts
      → ts ≡ []
      → Reach L evb s
      → s.phase ≡ ended
      → IsSentFrom evb s actions ts
  rest_runs s over e r p = (r, p, sym (append-nil s.sent))
  rest_runs {evb} s (runs {actions = actions} {ts = ts} h) e r p =
      IsSentFrom-run evb s actions ts (rest_runs (advance L run s) h e (step run r tt) p)
  rest_runs s (heads buf h) e r p = cc e
  rest_runs s (data_next buf h) e r p = cc e
  rest_runs s (ends h) e r p = cc e

  sent_then :
      (s : Session L) (t : Task L) (us ts : List (Task L))
      → us ≡ (s.sent ++ t ∷ []) ++ ts
      → us ≡ s.sent ++ (t ∷ ts)
  sent_then s t us ts e = e ∙ append_assoc s.sent (t ∷ []) ts

  data_sent :
      (s : Session L) (buf : L.IOBuf)
      → IsBody L buf
      → (advance L (send_data buf) s).sent ≡ s.sent ++ body_task buf ∷ []
  data_sent s buf h = rw (not_empty (head_length L buf) h) refl

  body_inj :
      {buf b : L.IOBuf} (ts us : List (Task L))
      → body_task buf ∷ ts ≡ body_task b ∷ us
      → (buf ≡ b) × (ts ≡ us)
  body_inj ts us e = (cc e, cc e)

  head_inj :
      {r q : Response L} (ts us : List (Task L))
      → headers_task r ∷ ts ≡ headers_task q ∷ us
      → ts ≡ us
  head_inj ts us e = cc e

  other_head :
      {r : Response L} {buf : L.IOBuf} (ts us : List (Task L))
      → headers_task r ∷ ts ≢ body_task buf ∷ us
  other_head ts us e = cc e

  other_end : {r : Response L} (ts us : List (Task L)) → headers_task r ∷ ts ≢ eof_task ∷ us
  other_end ts us e = cc e

  no_body : {buf : L.IOBuf} (ts us : List (Task L)) → body_task buf ∷ ts ≢ eof_task ∷ us
  no_body ts us e = cc e

  no_end :
      {buf : L.IOBuf} {ts : List (Task L)} (us : List (Task L)) → eof_task ∷ ts ≢ body_task buf ∷ us
  no_end us e = cc e

  rest_bodies :
      {evb : Option L.EventBase} {actions : List (Action L)} {ts : List (Task L)} (s : Session L)
      (bodies : List L.IOBuf)
      → Sends actions ts
      → ts ≡ map {B = Task L} (λ b. body_task b) bodies ++ eof_task ∷ []
      → All (IsBody L) bodies
      → Reach L evb s
      → s.phase ≡ started
      → IsSentFrom evb s actions ts
  rest_bodies s [] over e h r p = cc e
  rest_bodies s (b ∷ bodies) over e h r p = cc e
  rest_bodies {evb} s bodies (runs {actions = actions} {ts = ts} x) e h r p =
      IsSentFrom-run evb s actions ts (rest_bodies (advance L run s) bodies x e h (step run r tt) p)
  rest_bodies s [] (heads buf x) e h r p = absurd (other_end _ _ e)
  rest_bodies s (b ∷ bodies) (heads buf x) e h r p = absurd (other_head _ _ e)
  rest_bodies s [] (data_next buf x) e h r p = absurd (no_body _ _ e)
  rest_bodies s (b ∷ bodies) (data_next {ts = ts} buf x) e (h, hs) r p =
      let (same, more) = body_inj ts _ e in
      let full : IsBody L buf = subst (IsBody L) (sym same) h in
      let (r', p', sent) =
        rest_bodies (advance L (send_data buf) s) bodies x more hs (step (send_data buf) r p) p in
      (r', p', sent_then s (body_task buf) _ ts (sent ∙ ap (λ us. us ++ ts) (data_sent s buf full)))
  rest_bodies s [] (ends {ts = ts} x) e h r p =
      let (r', p', sent) = rest_runs (advance L finish s) x (cc e) (step finish r p) refl in
      (r', p', sent_then s eof_task _ ts sent)
  rest_bodies s (b ∷ bodies) (ends x) e h r p = absurd (no_end _ e)

  rest_response :
      {evb : Option L.EventBase} {actions : List (Action L)} {ts : List (Task L)} (s : Session L)
      (response : Response L) (bodies : List L.IOBuf)
      → Sends actions ts
      → ts ≡ headers_task response ∷ (map {B = Task L} (λ b. body_task b) bodies ++ eof_task ∷ [])
      → All (IsBody L) bodies
      → Reach L evb s
      → s.phase ≡ received
      → IsSentFrom evb s actions ts
  rest_response s response bodies over e h r p = cc e
  rest_response {evb} s response bodies (runs {actions = actions} {ts = ts} x) e h r p =
      IsSentFrom-run evb s actions ts
        (rest_response (advance L run s) response bodies x e h (step run r tt) p)
  rest_response s response bodies (heads {ts = ts} head x) e h r p =
      let (r', p', sent) =
        rest_bodies (advance L (send_headers head) s) bodies x (head_inj ts _ e) h
          (step (send_headers head) r p) refl in
      (r', p', sent_then s (headers_task head) _ ts sent)
  rest_response s response bodies (data_next buf x) e h r p = absurd (other_head _ _ (sym e))
  rest_response s response bodies (ends x) e h r p = absurd (other_end _ _ (sym e))

  nothing_sent :
      (evb : Option L.EventBase) (s : Session L) → Reach L evb s → s.phase ≡ received → s.sent ≡ []
  nothing_sent evb s r p = subst (λ q. IsSentIn L q s.sent) p (Reach-IsInOrder L evb s r).1

  -- The answer of `onEOM`, sent by a handler that has received its request, while the event base runs
  -- what is queued at any times between the sends: the contract of the base class is kept, no deleted
  -- handler and no null builder is used, the whole answer has been sent, and the calls on the builder
  -- are those of the answer, in order, but for the tasks that are still queued; when the event base has
  -- run those too, they are all the calls of the answer.
  -- It is assumed that buffers behave as documented.
  pub Answer-IsInOrder :
      (R : FillLaws L) (handler : FileHandler L) (ts : List (Task L)) (actions : List (Action L))
      (evb : Option L.EventBase) (s : Session L)
      → Answer L handler ts
      → Sends actions ts
      → Reach L evb s
      → s.phase ≡ received
      → let t = perform actions s in
        Reach L evb t
        × (t.connection.misused ≡ false)
        × (t.phase ≡ ended)
        × (t.sent ≡ ts)
        × ((calls : List (BuilderCall L)) × (t.connection.handler.response_builder ≡ some calls)
            × (render L ts ≡ calls ++ render L t.connection.handler.queue))
        × ((drain L (length t.connection.handler.queue) t).connection.handler.response_builder
            ≡ some (render L ts))
  Answer-IsInOrder R handler ts actions evb s answer sends r p =
      let (response, bodies, e, full) = Answer-IsUpTo L R handler ts answer in
      let (r', ended_then, sent) = rest_response s response bodies sends e full r p in
      let whole : (perform actions s).sent ≡ ts =
        sent ∙ ap (λ us. us ++ ts) (nothing_sent evb s r p) in
      let (safe, _, order) = Reach-IsInOrder L evb (perform actions s) r' in
      let (calls, built, same) = in_order_of L (perform actions s) ended_then order in
      (
        r',
        safe,
        ended_then,
        whole,
        (calls, built, ap (render L) (sym whole) ∙ same),
        drain-render L (length (perform actions s).connection.handler.queue) evb (perform actions s)
              r' ended_then (omega arith)
            ∙ ap (λ us. some (render L us)) whole,
      )
