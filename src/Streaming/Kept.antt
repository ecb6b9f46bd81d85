-- ===== src/Streaming/Kept.antt =====
-- The invariant of a connection, and the steps of the event base and of the sends that keep it.
use nozomi.Common.{
  inl, inr, Bool, true, false, Option, some, List, [], ◌∷◌, ◌++◌, ◌==◌, Bool-cases, All, All-append,
}
use nozomi.Libs.{Libs}
use nozomi.Libs.Builder.{BuilderCall}
use nozomi.Streaming.{
  Task, headers_task, body_task, eof_task, delete_task, make_streaming_handler, head_length,
  send_body, run_task,
}
use nozomi.Streaming.Lifetime.{
  Connection, Phase, started, ended, completed, Session, send_data, run, advance, IsOpen, fresh,
}
use nozomi.Streaming.Sent.{
  pos_of_eqb, IsUpTo, IsSend, Logged, same_sent, Logged-post, Logged-run, IsUpTo-body,
}

module _ (L : Libs) where
  abbrev pub flag : Phase → Bool
  flag started = true
  flag ended = true
  flag _ = false

  -- A connection whose builder is there.
  abbrev pub at : L.EventBase → List (BuilderCall L) → Bool → Bool → List (Task L) → Connection L
  at evb calls headers_sent alive queue = record {
    handler = record {
      evb = some evb;
      response_builder = some calls;
      sent_headers = headers_sent;
      queue = queue;
    };
    alive = alive;
    misused = false;
  }

  pub data Inv : Session L → Type 0 where
    waiting : (evb : Option L.EventBase) → Inv (fresh L evb)
    live :
        (evb : L.EventBase) (calls : List (BuilderCall L)) (p : Phase) (queue sent : List (Task L))
        → IsOpen L p
        → All (IsSend L) queue
        → IsUpTo L p sent
        → Logged L calls queue sent
        → Inv (record { connection = at evb calls (flag p) true queue; phase = p; sent = sent })
    closing :
        (evb : L.EventBase) (calls : List (BuilderCall L)) (b : Bool) (p : Phase)
        (queue sent : List (Task L))
        → All (IsSend L) queue
        → IsUpTo L p sent
        → Logged L calls queue sent
        → Inv (record {
          connection = at evb calls b true (queue ++ delete_task ∷ []);
          phase = completed;
          sent = sent;
        })
    gone :
        (evb : L.EventBase) (calls : List (BuilderCall L)) (b : Bool) (p : Phase)
        (sent : List (Task L))
        → IsUpTo L p sent
        → Logged L calls [] sent
        → Inv (record { connection = at evb calls b false []; phase = completed; sent = sent })

  pub run-Inv : {s : Session L} → Inv s → Inv (advance L run s)
  unfolding run_task make_streaming_handler
  run-Inv (waiting evb) = waiting evb
  run-Inv (live evb calls p [] sent o q u l) =
      live evb calls p [] (sent ++ []) o tt (same_sent L (IsUpTo L p) sent u)
        (same_sent L (Logged L calls []) sent l)
  run-Inv (live evb calls p (headers_task r ∷ queue) sent o (_, q) u l) =
      live evb _ p queue (sent ++ []) o q (same_sent L (IsUpTo L p) sent u)
        (same_sent L (Logged L _ queue) sent (Logged-run L calls _ queue sent l))
  run-Inv (live evb calls p (body_task b ∷ queue) sent o (_, q) u l) =
      live evb _ p queue (sent ++ []) o q (same_sent L (IsUpTo L p) sent u)
        (same_sent L (Logged L _ queue) sent (Logged-run L calls _ queue sent l))
  run-Inv (live evb calls p (eof_task ∷ queue) sent o (_, q) u l) =
      live evb _ p queue (sent ++ []) o q (same_sent L (IsUpTo L p) sent u)
        (same_sent L (Logged L _ queue) sent (Logged-run L calls _ queue sent l))
  run-Inv (live evb calls p (delete_task ∷ queue) sent o (n, q) u l) = absurd n
  run-Inv (closing evb calls b p [] sent q u l) =
      gone evb calls b p (sent ++ []) (same_sent L (IsUpTo L p) sent u)
        (same_sent L (Logged L calls []) sent l)
  run-Inv (closing evb calls b p (headers_task r ∷ queue) sent (_, q) u l) =
      closing evb _ b p queue (sent ++ []) q (same_sent L (IsUpTo L p) sent u)
        (same_sent L (Logged L _ queue) sent (Logged-run L calls _ queue sent l))
  run-Inv (closing evb calls b p (body_task r ∷ queue) sent (_, q) u l) =
      closing evb _ b p queue (sent ++ []) q (same_sent L (IsUpTo L p) sent u)
        (same_sent L (Logged L _ queue) sent (Logged-run L calls _ queue sent l))
  run-Inv (closing evb calls b p (eof_task ∷ queue) sent (_, q) u l) =
      closing evb _ b p queue (sent ++ []) q (same_sent L (IsUpTo L p) sent u)
        (same_sent L (Logged L _ queue) sent (Logged-run L calls _ queue sent l))
  run-Inv (closing evb calls b p (delete_task ∷ queue) sent (n, q) u l) = absurd n
  run-Inv (gone evb calls b p sent u l) =
      gone evb calls b p (sent ++ []) (same_sent L (IsUpTo L p) sent u)
        (same_sent L (Logged L calls []) sent l)

  pub send_data-Inv :
      (evb : L.EventBase) (calls : List (BuilderCall L)) (queue sent : List (Task L))
      (buf : L.IOBuf)
      → All (IsSend L) queue
      → IsUpTo L started sent
      → Logged L calls queue sent
      → Inv (
          advance L
            (send_data buf)
            (record { connection = at evb calls true true queue; phase = started; sent = sent }))
  unfolding send_body
  send_data-Inv evb calls queue sent buf q u l = elim (Bool-cases (head_length L buf == 0)) [
    | inl empty ↦
        rw (empty, send_body)
          (live evb calls started queue (sent ++ []) tt q (same_sent L (IsUpTo L started) sent u)
            (same_sent L (Logged L calls queue) sent l))
    | inr full ↦
        rw (full, send_body)
          (live evb calls started (queue ++ body_task buf ∷ []) (sent ++ body_task buf ∷ []) tt
            (All-append (IsSend L) queue (body_task buf ∷ []) q (tt, tt))
            (IsUpTo-body L sent buf (pos_of_eqb (head_length L buf) full) u)
            (Logged-post L calls queue sent (body_task buf) l))
  ]

  pub close-Inv :
      (evb : L.EventBase) (calls : List (BuilderCall L)) (b : Bool) (p : Phase)
      (queue sent : List (Task L))
      → All (IsSend L) queue
      → IsUpTo L p sent
      → Logged L calls queue sent
      → Inv (record {
        connection = at evb calls b true (queue ++ delete_task ∷ []);
        phase = completed;
        sent = sent ++ [];
      })
  close-Inv evb calls b p queue sent q u l =
      closing evb calls b p queue (sent ++ []) q (same_sent L (IsUpTo L p) sent u)
        (same_sent L (Logged L calls queue) sent l)
