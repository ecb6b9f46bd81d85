-- ===== src/Files/Serving.antt =====
-- A request for a file, from its headers to the calls on the builder: the handler on its base class and
-- the event base.
use nozomi.Common.{
  ℕ, ◌<◌, ◌≡◌, refl, sym, ap, ◌∙◌, Bool, true, Option, none, some, List, [], ◌∷◌, ◌++◌, append-nil,
  append_assoc, length, Str, ok, false,
}
use nozomi.Libs.{Libs, Stream}
use nozomi.Libs.Laws.{FillLaws}
use nozomi.Libs.Builder.{BuilderCall}
use nozomi.Streaming.{
  Task, StreamingHandler, make_streaming_handler, on_request, run_task, calls_of,
}
use nozomi.Streaming.Lifetime.{ended}
use nozomi.Streaming.Sent.{render, IsUpTo}
use nozomi.Files.{
  FileHandler, make_file_handler, set_request_args, sanitize_path, on_request_received, on_eom,
}
use nozomi.Files.Answers.{Answer, answered, on_eom-Answer, Answer-IsUpTo}

module _ (L : Libs) where
  -- `onRequest` of the base class, which calls the virtual `onRequestReceived`.
  unfoldable pub begin : L.EventBase → L.Message → FileHandler L → FileHandler L
  begin current headers handler =
      let (base, request) = on_request L current headers handler.base in
      on_request_received L request (record handler { base = base })

  -- The event base runs what is queued, in order.
  abbrev run_tasks : List (Task L) → StreamingHandler L → Option (StreamingHandler L)
  run_tasks [] s = some s
  run_tasks (task ∷ rest) s = elim (run_task L task s) [ none ↦ none | some s' ↦ run_tasks rest s' ]

  abbrev pub run_queue : StreamingHandler L → Option (StreamingHandler L)
  run_queue s = run_tasks s.queue (record s { queue = [] })

  -- A handler with a builder on which calls have been made.
  abbrev built : StreamingHandler L → List (BuilderCall L) → StreamingHandler L
  built s calls = record s { response_builder = some calls }

  run_tasks_lem :
      (ts : List (Task L)) (s : StreamingHandler L) (calls : List (BuilderCall L))
      → run_tasks ts (built s calls) ≡ some (built s (calls ++ render L ts))
  unfolding run_task
  run_tasks_lem [] s calls = ap (λ c. some (built s c)) (sym (append-nil calls))
  run_tasks_lem (t ∷ ts) s calls =
      run_tasks_lem ts s (calls ++ calls_of L t)
      ∙ ap (λ c. some (built s c)) (append_assoc calls (calls_of L t) (render L ts))

  module _ (R : FillLaws L) where
    -- A request for a file, to a new handler with a buffer that is not empty and with more fuel than
    -- the file has bytes: when the event base has run what `onEOM` queued, the calls on the builder are
    -- those of one whole response, which answers for the sanitized path below the public directory, in
    -- each of the cases of `Answer`; and no null builder was called.
    -- It is assumed that the question whether the path is a regular file does not throw, that a file
    -- that opens can be read to its end, and that buffers behave as documented.
    pub begin-Answer :
        (fuel : ℕ) (public_dir : L.FilePath) (size : ℕ) (evb : Option L.EventBase) (raw_path : Str)
        (current : L.EventBase) (headers : L.Message) (regular : Bool)
        → let handler =
            begin current headers
              (set_request_args L raw_path (make_file_handler L public_dir size evb)) in
          0 < size
          → ((stream : Stream)
              → L.contents handler.path ≡ some stream
              → (length stream.text < fuel) × (stream.fails ≡ false))
          → L.is_regular_file handler.path ≡ ok regular
          → (done : FileHandler L) × (ts : List (Task L)) × (s : StreamingHandler L) × (handler.path
              ≡ L.join public_dir (sanitize_path L raw_path))
            × (on_eom L fuel handler ≡ ok (some done))
            × (run_queue done.base ≡ some s)
            × (s.response_builder ≡ some (render L ts))
            × Answer L handler ts
            × IsUpTo L ended ts
    unfolding begin on_request on_request_received set_request_args make_file_handler
        make_streaming_handler
    begin-Answer fuel public_dir size evb raw_path current headers regular positive enough e =
        let handler =
          begin current headers
            (set_request_args L raw_path (make_file_handler L public_dir size evb)) in
        let (ts, same, answer) = on_eom-Answer L R fuel handler regular positive enough e in
        (
          answered L handler ts,
          ts,
          record handler.base {
            response_builder = some (render L ts);
            sent_headers = true;
            queue = [];
          },
          refl,
          same,
          run_tasks_lem ts (record handler.base { sent_headers = true; queue = [] }) [],
          refl,
          answer,
          Answer-IsUpTo L R handler ts answer,
        )
