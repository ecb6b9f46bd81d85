-- ===== src/Streaming/Drained.antt =====
-- The event base runs all that is queued.
use nozomi.Common.{
  ℕ, zero, suc, ◌≤◌, ◌≡◌, refl, sym, ap, ◌∙◌, inl, inr, Bool, true, false, Option, none, some, List,
  [], ◌∷◌, ◌++◌, append-nil, arith, length, drop,
}
use nozomi.Libs.{Libs}
use nozomi.Libs.Builder.{BuilderCall}
use nozomi.Streaming.{run_task, Task, headers_task, body_task, eof_task, delete_task}
use nozomi.Streaming.Lifetime.{Connection, Session, Reach, step, run, advance, run_next, ended}
use nozomi.Streaming.Sent.{render}
use nozomi.Streaming.Protocol.{IsInOrder, Reach-IsInOrder}

module _ (L : Libs) where
  abbrev connection_of :
      Option L.EventBase
      → Option (List (BuilderCall L))
      → Bool
      → Bool
      → Bool
      → List (Task L)
      → Connection L
  connection_of evb builder headers alive misused queue = record {
    handler = record {
      evb = evb;
      response_builder = builder;
      sent_headers = headers;
      queue = queue;
    };
    alive = alive;
    misused = misused;
  }

  run_next-connection_of :
      (evb : Option L.EventBase) (builder : Option (List (BuilderCall L)))
      (headers alive misused : Bool) (queue : List (Task L))
      → (run_next L (connection_of evb builder headers alive misused queue)).handler.queue
        ≡ drop 1 queue
  unfolding run_task
  run_next-connection_of evb builder headers alive misused [] = refl
  run_next-connection_of evb builder headers false misused (task ∷ rest) = refl
  run_next-connection_of evb builder headers true misused (delete_task ∷ rest) = refl
  run_next-connection_of evb none headers true misused (headers_task r ∷ rest) = refl
  run_next-connection_of evb (some calls) headers true misused (headers_task r ∷ rest) = refl
  run_next-connection_of evb none headers true misused (body_task buf ∷ rest) = refl
  run_next-connection_of evb (some calls) headers true misused (body_task buf ∷ rest) = refl
  run_next-connection_of evb none headers true misused (eof_task ∷ rest) = refl
  run_next-connection_of evb (some calls) headers true misused (eof_task ∷ rest) = refl

  -- A run takes the oldest task from the queue.
  run_next-queue : (c : Connection L) → (run_next L c).handler.queue ≡ drop 1 c.handler.queue
  run_next-queue c =
      run_next-connection_of c.handler.evb c.handler.response_builder c.handler.sent_headers c.alive
        c.misused c.handler.queue

  pub in_order_of :
      (t : Session L)
      → t.phase ≡ ended
      → IsInOrder L t
      → (calls : List (BuilderCall L)) × (t.connection.handler.response_builder ≡ some calls)
        × (render L t.sent ≡ calls ++ render L t.connection.handler.queue)
  in_order_of t p (inl waiting) = cc (p, waiting)
  in_order_of t p (inr order) = order

  -- The event base runs `n` tasks.
  abbrev pub drain : ℕ → Session L → Session L
  drain zero s = s
  drain (suc n) s = drain n (advance L run s)

  shorter : (n : ℕ) (ts us : List (Task L)) → us ≡ drop 1 ts → length ts ≤ suc n → length us ≤ n
  shorter n [] us e h = rw e (omega arith)
  shorter n (t ∷ ts) us e h = rw e (omega (arith, h))

  no_task : (ts : List (Task L)) → length ts ≤ 0 → ts ≡ []
  no_task [] h = refl
  no_task (t ∷ ts) h = absurd (omega (arith, h))

  -- When it has run as many as are queued, none is left; it sends nothing more.
  pub drain-Reach :
      (n : ℕ) (evb : Option L.EventBase) (s : Session L)
      → Reach L evb s
      → length s.connection.handler.queue ≤ n
      → Reach L evb (drain n s)
        × ((drain n s).phase ≡ s.phase)
        × ((drain n s).sent ≡ s.sent)
        × ((drain n s).connection.handler.queue ≡ [])
  drain-Reach zero evb s r h = (r, refl, refl, no_task s.connection.handler.queue h)
  drain-Reach (suc n) evb s r h =
      let next = advance L run s in
      let (r', p, e, q) = drain-Reach n evb next (step run r tt) (
        shorter n s.connection.handler.queue next.connection.handler.queue
          (run_next-queue s.connection) h) in
      (r', p, e ∙ append-nil s.sent, q)

  -- Then the builder of a response that was ended has been called for all that was sent.
  pub drain-render :
      (n : ℕ) (evb : Option L.EventBase) (s : Session L)
      → Reach L evb s
      → s.phase ≡ ended
      → length s.connection.handler.queue ≤ n
      → (drain n s).connection.handler.response_builder ≡ some (render L s.sent)
  drain-render n evb s r p h =
      let (r', p', sent, idle) = drain-Reach n evb s r h in
      let (_, _, order) = Reach-IsInOrder L evb (drain n s) r' in
      let (calls, built, same) = in_order_of (drain n s) (p' ∙ p) order in
      built
      ∙ ap some (
          sym (
            ap (render L) (sym sent)
            ∙ same
            ∙ ap (λ ts. calls ++ render L ts) idle
            ∙ append-nil calls))
