-- ===== src/Streaming/Protocol.antt =====
-- What a connection that keeps the contract sends, and that it never touches a deleted handler.
use nozomi.Common.{
  ◌≡◌, refl, ap, ◌⊎◌, inl, inr, false, Option, some, List, [], ◌∷◌, ◌++◌, value_or, All-append,
}
use nozomi.Libs.{Libs}
use nozomi.Libs.Builder.{BuilderCall}
use nozomi.Streaming.{
  headers_task, eof_task, make_streaming_handler, on_request, send_response_headers, send_eof,
  request_complete, on_error,
}
use nozomi.Streaming.Lifetime.{
  idle, received, started, ended, completed, Session, Action, receive, send_headers, send_data,
  finish, complete, fail, run, advance, Permits, Reach, start, step,
}
use nozomi.Streaming.Sent.{render, IsSentIn, IsSend, Logged-post, IsUpTo-eof, Logged-closing}
use nozomi.Streaming.Kept.{
  Inv, waiting, live, closing, gone, flag, run-Inv, send_data-Inv, close-Inv,
}

module _ (L : Libs) where
  advance-Inv : {s : Session L} (a : Action L) → Inv L s → Permits L s a → Inv L (advance L a s)
  unfolding make_streaming_handler on_request send_response_headers send_eof request_complete
      on_error
  advance-Inv run i h = run-Inv L i
  advance-Inv (receive current message) (waiting evb) h =
      live (value_or evb current) [] received [] [] tt tt refl refl
  advance-Inv (receive current message) (live evb calls p queue sent o q u l) h = absurd (rw h at o)
  advance-Inv (receive current message) (closing evb calls b p queue sent q u l) h = cc
  advance-Inv (receive current message) (gone evb calls b p sent u l) h = cc
  advance-Inv (send_headers r) (waiting evb) h = cc
  advance-Inv (send_headers r) (live evb calls received queue sent o q u l) h =
      live evb calls started (queue ++ headers_task r ∷ []) (sent ++ headers_task r ∷ []) tt
        (All-append (IsSend L) queue (headers_task r ∷ []) q (tt, tt))
        (r, [], ap (λ ts. ts ++ headers_task r ∷ []) u, tt)
        (Logged-post L calls queue sent (headers_task r) l)
  advance-Inv (send_headers r) (live evb calls idle queue sent o q u l) h = cc
  advance-Inv (send_headers r) (live evb calls started queue sent o q u l) h = cc
  advance-Inv (send_headers r) (live evb calls ended queue sent o q u l) h = cc
  advance-Inv (send_headers r) (live evb calls completed queue sent o q u l) h = cc
  advance-Inv (send_headers r) (closing evb calls b p queue sent q u l) h = cc
  advance-Inv (send_headers r) (gone evb calls b p sent u l) h = cc
  advance-Inv (send_data buf) (waiting evb) h = cc
  advance-Inv (send_data buf) (live evb calls started queue sent o q u l) h =
      send_data-Inv L evb calls queue sent buf q u l
  advance-Inv (send_data buf) (live evb calls idle queue sent o q u l) h = cc
  advance-Inv (send_data buf) (live evb calls received queue sent o q u l) h = cc
  advance-Inv (send_data buf) (live evb calls ended queue sent o q u l) h = cc
  advance-Inv (send_data buf) (live evb calls completed queue sent o q u l) h = cc
  advance-Inv (send_data buf) (closing evb calls b p queue sent q u l) h = cc
  advance-Inv (send_data buf) (gone evb calls b p sent u l) h = cc
  advance-Inv finish (waiting evb) h = cc
  advance-Inv finish (live evb calls started queue sent o q u l) h =
      live evb calls ended (queue ++ eof_task ∷ []) (sent ++ eof_task ∷ []) tt
        (All-append (IsSend L) queue (eof_task ∷ []) q (tt, tt)) (IsUpTo-eof L sent u)
        (Logged-post L calls queue sent eof_task l)
  advance-Inv finish (live evb calls idle queue sent o q u l) h = cc
  advance-Inv finish (live evb calls received queue sent o q u l) h = cc
  advance-Inv finish (live evb calls ended queue sent o q u l) h = cc
  advance-Inv finish (live evb calls completed queue sent o q u l) h = cc
  advance-Inv finish (closing evb calls b p queue sent q u l) h = cc
  advance-Inv finish (gone evb calls b p sent u l) h = cc
  advance-Inv complete (waiting evb) (h, e) = cc
  advance-Inv complete (live evb calls p queue sent o q u l) h =
      close-Inv L evb calls (flag L p) p queue sent q u l
  advance-Inv complete (closing evb calls b p queue sent q u l) (h, e) = cc
  advance-Inv complete (gone evb calls b p sent u l) (h, e) = cc
  advance-Inv fail (waiting evb) h = absurd h
  advance-Inv fail (live evb calls p queue sent o q u l) h =
      close-Inv L evb calls (flag L p) p queue sent q u l
  advance-Inv fail (closing evb calls b p queue sent q u l) h = absurd h
  advance-Inv fail (gone evb calls b p sent u l) h = absurd h

  Reach-Inv : {evb : Option L.EventBase} {s : Session L} → Reach L evb s → Inv L s
  Reach-Inv {evb} start = waiting evb
  Reach-Inv (step a r h) = advance-Inv a (Reach-Inv r) h

  -- The calls made on the builder so far are those of the tasks that were sent, but for the queue.
  abbrev pub IsInOrder : Session L → Type 0
  IsInOrder s =
      (s.phase ≡ idle)
      ⊎ ((calls : List (BuilderCall L)) × (s.connection.handler.response_builder ≡ some calls)
          × (render L s.sent ≡ calls ++ render L s.connection.handler.queue))

  Inv-sound :
      {s : Session L}
      → Inv L s
      → (s.connection.misused ≡ false) × IsSentIn L s.phase s.sent × IsInOrder s
  Inv-sound (waiting evb) = (refl, refl, inl refl)
  Inv-sound (live evb calls received queue sent o q u l) = (refl, u, inr (calls, refl, l))
  Inv-sound (live evb calls started queue sent o q u l) = (refl, u, inr (calls, refl, l))
  Inv-sound (live evb calls ended queue sent o q u l) = (refl, u, inr (calls, refl, l))
  Inv-sound (live evb calls idle queue sent o q u l) = absurd o
  Inv-sound (live evb calls completed queue sent o q u l) = absurd o
  Inv-sound (closing evb calls b p queue sent q u l) =
      (refl, (p, u), inr (calls, refl, Logged-closing L calls queue sent l))
  Inv-sound (gone evb calls b p sent u l) = (refl, (p, u), inr (calls, refl, l))

  -- While the callbacks and the implementation class keep their contract, in any interleaving with
  -- the event base: no deleted handler and no null builder is ever used; what has been sent is the
  -- headers, then buffers that are not empty, then the end, as far as the phase says; and the calls
  -- on the builder are those of the sent tasks, in order, but for those still queued.
  pub Reach-IsInOrder :
      (evb : Option L.EventBase) (s : Session L)
      → Reach L evb s
      → (s.connection.misused ≡ false) × IsSentIn L s.phase s.sent × IsInOrder s
  Reach-IsInOrder evb s r = Inv-sound (Reach-Inv r)
