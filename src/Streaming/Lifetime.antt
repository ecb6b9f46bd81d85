-- ===== src/Streaming/Lifetime.antt =====
-- The life of a streaming handler: the calls that proxygen and the implementation class make on it,
-- interleaved with the tasks that its event base runs, in the order in which they were queued.
use nozomi.Common.{
  ◌≡◌, Bool, true, false, Option, none, some, List, [], ◌∷◌, ◌++◌, ◌==◌, if◌then◌else◌,
}
use nozomi.Libs.{Libs}
use nozomi.Http.{Response}
use nozomi.Streaming.{
  Task, headers_task, body_task, eof_task, delete_task, StreamingHandler, make_streaming_handler,
  on_request, head_length, send_response_headers, send_body, send_eof, request_complete, on_error,
  run_task,
}

-- An object on the heap: `misused` once it was used or deleted after its deletion, or a null builder
-- was called.
pub record Connection (L : Libs) : Type 0 where
  pub handler : StreamingHandler L
  pub alive : Bool
  pub misused : Bool

module _ (L : Libs) where
  abbrev pub use_object : (StreamingHandler L → StreamingHandler L) → Connection L → Connection L
  use_object f c =
      if c.alive then record c { handler = f c.handler } else record c { misused = true }

  abbrev run_send : Task L → Connection L → Connection L
  run_send task c = elim (run_task L task c.handler) [
    | none ↦ record c { misused = true }
    | some handler ↦ record c { handler = handler }
  ]

  abbrev run_live : Task L → Connection L → Connection L
  run_live delete_task c = record c { alive = false }
  run_live (headers_task response) c = run_send (headers_task response) c
  run_live (body_task buf) c = run_send (body_task buf) c
  run_live eof_task c = run_send eof_task c

  abbrev run_queue : List (Task L) → Connection L → Connection L
  run_queue [] c = c
  run_queue (task ∷ rest) c =
      let popped = record c { handler = record c.handler { queue = rest } } in
      if c.alive then run_live task popped else record popped { misused = true }

  -- The event base runs the oldest task.
  abbrev pub run_next : Connection L → Connection L
  run_next c = run_queue c.handler.queue c

pub data Phase : Type 0 where
  idle received started ended completed : Phase

-- A connection with the phase of its response, and every task that sends that it has queued.
pub record Session (L : Libs) : Type 0 where
  pub connection : Connection L
  pub phase : Phase
  pub sent : List (Task L)

module _ (L : Libs) where
  -- What may happen: proxygen's callbacks, the sends of the implementation class, and the event base.
  pub data Action : Type 0 where
    receive : L.EventBase → L.Message → Action
    send_headers : Response L → Action
    send_data : L.IOBuf → Action
    finish : Action
    complete : Action
    fail : Action
    run : Action

  abbrev act : Action → Connection L → Connection L
  act (receive current message) c = use_object L (λ h. (on_request L current message h).0) c
  act (send_headers response) c = use_object L (send_response_headers L response) c
  act (send_data buf) c = use_object L (send_body L buf) c
  act finish c = use_object L (send_eof L) c
  act complete c = use_object L (request_complete L) c
  act fail c = use_object L (on_error L) c
  act run c = run_next L c

  abbrev next_phase : Action → Phase → Phase
  next_phase (receive current message) p = received
  next_phase (send_headers response) p = started
  next_phase (send_data buf) p = p
  next_phase finish p = ended
  next_phase complete p = completed
  next_phase fail p = completed
  next_phase run p = p

  abbrev sends : Action → List (Task L)
  sends (send_headers response) = headers_task response ∷ []
  sends (send_data buf) = if head_length L buf == 0 then [] else body_task buf ∷ []
  sends finish = eof_task ∷ []
  sends _ = []

  abbrev pub advance : Action → Session L → Session L
  advance a s = record {
    connection = act a s.connection;
    phase = next_phase a s.phase;
    sent = s.sent ++ sends a;
  }

  abbrev pub IsOpen : Phase → Type 0
  IsOpen received = Unit
  IsOpen started = Unit
  IsOpen ended = Unit
  IsOpen _ = ⊥

  -- The contract of the callbacks: `onRequest` comes first, then the headers, the data and the end,
  -- each in its turn; `requestComplete` when all of it has been sent, or `onError` at any time, after
  -- which the implementation class sends nothing.
  abbrev pub Permits : Session L → Action → Type 0
  Permits s (receive current message) = s.phase ≡ idle
  Permits s (send_headers response) = s.phase ≡ received
  Permits s (send_data buf) = s.phase ≡ started
  Permits s finish = s.phase ≡ started
  Permits s complete = (s.phase ≡ ended) × (s.connection.handler.queue ≡ [])
  Permits s fail = IsOpen s.phase
  Permits s run = Unit

  abbrev pub fresh : Option L.EventBase → Session L
  fresh evb = record {
    connection = record { handler = make_streaming_handler L evb; alive = true; misused = false };
    phase = idle;
    sent = [];
  }

  pub data Reach (evb : Option L.EventBase) : Session L → Type 0 where
    start : Reach evb (fresh evb)
    step : {s : Session L} (a : Action) → Reach evb s → Permits s a → Reach evb (advance a s)
