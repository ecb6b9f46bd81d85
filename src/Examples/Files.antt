-- ===== src/Examples/Files.antt =====
-- Files on the sample libraries, where every path is a file that holds `hello`.
use nozomi.Common.{
  some_inj, ◌<◌, ◌≡◌, refl, ap, subst, true, some, List, [], ◌∷◌, arith, length, All, Str, codes,
  str_eq, ok, none, ℕ, ◌↔◌, false, ◌++◌,
}
use nozomi.Libs.Sample.{sample, roomy, blank_message}
use nozomi.Streaming.{Task, headers_task, eof_task, head_length}
use nozomi.Http.{response_of_status}
use nozomi.Libs.{readable}
use nozomi.Libs.Builder.{BuilderCall}
use nozomi.Streaming.Lifetime.{
  ended, Session, Action, receive, send_headers, send_data, finish, run, fresh, advance, Reach,
  start, step,
}
use nozomi.Streaming.Sent.{render}
use nozomi.Examples.Laws.{sample_fills, sample_buffers, roomy_buffers}
use nozomi.Streaming.{make_streaming_handler}
use nozomi.Files.{
  FileHandler, is_unmodified, on_eom, set_request_args, make_file_handler, sanitize_path,
  read_buffer,
}
use nozomi.Files.Answers.{Answer, answered, on_eom-Answer, served}
use nozomi.Files.Reading.{pieces}
use nozomi.Streaming.Drained.{drain}
use nozomi.Files.Endless.{on_eom_ends}
use nozomi.Files.Interleaved.{Sends, over, runs, heads, data_next, ends, perform, Answer-IsInOrder}
use nozomi.Streaming.Bodies.{body_bytes}
use nozomi.Files.Bytes.{on_eom-bytes, on_eom-excess}
use nozomi.Files.Sanitizing.{IsName, PathLaws, sanitize_path-IsName}

abbrev handler : FileHandler sample
handler = make_file_handler sample (codes "public" ∷ []) 2 none

on_eom-Answer_example :
    (ts : List (Task sample)) × (on_eom sample 9 handler ≡ ok (some (answered sample handler ts)))
    × Answer sample handler ts
unfolding make_file_handler
on_eom-Answer_example =
    on_eom-Answer sample (sample_fills 0) 9 handler true (omega arith)
      (λ s e. subst (λ s. (length s.text < 9) × (s.fails ≡ false)) (some_inj e) (omega arith, refl))
      refl

IsRelative : Str → Type 0
IsRelative c = Unit

sample_paths : PathLaws sample IsRelative
sample_paths = record {
  components-empty = refl;
  components-append = λ p c r. refl;
  components-remove_filename = drops;
}
  where
    drops : (p : List Str) → sample.remove_filename p ≡ nozomi.Files.Sanitizing.drop_last p
    drops [] = refl
    drops (c ∷ []) = refl
    drops (c ∷ d ∷ p) = ap (λ q. c ∷ q) (drops (d ∷ p))

sanitize_path-IsName_example :
    All IsName (sample.components (sanitize_path sample (codes "a/../b")))
    × (All IsName (sample.components (sample.to_path (codes "a/../b")))
        → sample.components (sanitize_path sample (codes "a/../b"))
          ≡ sample.components (sample.to_path (codes "a/../b")))
unfolding str_eq IsRelative
sanitize_path-IsName_example =
    sanitize_path-IsName sample IsRelative sample_paths (codes "a/../b") (tt, (tt, (tt, tt)))

-- A file in two pieces.
abbrev file : FileHandler sample
file = make_file_handler sample (codes "public" ∷ []) 4 none

on_eom-bytes_example :
    (done : FileHandler sample) × (on_eom sample 9 file ≡ ok (some done))
    × (body_bytes sample (render sample done.base.queue) ≡ codes "hello")
unfolding make_file_handler make_streaming_handler is_unmodified
on_eom-bytes_example =
    on_eom-bytes sample (sample_fills 0) sample_buffers 9 file (codes "hello") (omega arith)
      (omega arith) refl refl refl refl refl

-- The same, when new buffers have three bytes more.
abbrev roomy_file : FileHandler (roomy 3)
roomy_file = make_file_handler (roomy 3) (codes "public" ∷ []) 4 none

on_eom-excess_example :
    (done : FileHandler (roomy 3)) × (on_eom (roomy 3) 9 roomy_file ≡ ok (some done))
    × (length (codes "hello") < length (body_bytes (roomy 3) (render (roomy 3) done.base.queue)))
unfolding make_file_handler make_streaming_handler is_unmodified
on_eom-excess_example =
    on_eom-excess (roomy 3) (sample_fills 3) (roomy_buffers 3) 9 roomy_file (codes "hello")
      (omega arith) (omega arith) refl refl refl refl (omega arith) (λ e. cc e)

on_eom_ends_example :
    ((fuel : ℕ) × (done : FileHandler sample) × (on_eom sample fuel file ≡ ok (some done)))
    ↔ ((0 < file.read_buffer_size) × (false ≡ false))
unfolding make_file_handler make_streaming_handler is_unmodified
on_eom_ends_example =
    on_eom_ends sample (sample_fills 0) file (readable (codes "hello")) refl refl refl

-- The answer of that handler, and its sends with runs between them.
abbrev answer_tasks : List (Task sample)
answer_tasks =
    headers_task (response_of_status sample 200)
    ∷ (pieces sample 4 (codes "hell" ∷ codes "o" ∷ []) ++ eof_task ∷ [])

abbrev answer_actions : List (Action sample)
answer_actions =
    send_headers (response_of_status sample 200)
    ∷ send_data (read_buffer sample 4 (codes "hell"))
    ∷ run
    ∷ send_data (read_buffer sample 4 (codes "o"))
    ∷ run
    ∷ finish
    ∷ run
    ∷ []

file-Answer : Answer sample file answer_tasks
unfolding make_file_handler make_streaming_handler is_unmodified read_buffer head_length
file-Answer = served (codes "hello") (codes "hell" ∷ codes "o" ∷ []) refl refl refl (
  refl,
  (
    (omega arith, omega arith, ([], refl, refl)),
    ((omega arith, omega arith, ([], refl, refl)), tt),
  ),
)

answer_actions-Sends : Sends sample answer_actions answer_tasks
answer_actions-Sends = heads (response_of_status sample 200) (
    data_next (read_buffer sample 4 (codes "hell"))
      (runs (data_next (read_buffer sample 4 (codes "o")) (runs (ends (runs over))))))

abbrev first_session : Session sample
first_session = advance sample (receive tt blank_message) (fresh sample none)

Answer-IsInOrder_example :
    Reach sample none (perform sample answer_actions first_session)
    × ((perform sample answer_actions first_session).connection.misused ≡ false)
    × ((perform sample answer_actions first_session).phase ≡ ended)
    × ((perform sample answer_actions first_session).sent ≡ answer_tasks)
    × ((calls : List (BuilderCall sample)) × ((perform sample answer_actions
            first_session).connection.handler.response_builder
          ≡ some calls)
        × (render sample answer_tasks
            ≡ calls
              ++ render sample
                  (perform sample answer_actions first_session).connection.handler.queue))
    × ((drain sample
          (length (perform sample answer_actions first_session).connection.handler.queue)
          (perform sample answer_actions first_session)).connection.handler.response_builder
        ≡ some (render sample answer_tasks))
Answer-IsInOrder_example =
    Answer-IsInOrder sample (sample_fills 0) file answer_tasks answer_actions none first_session
      file-Answer answer_actions-Sends (step (receive tt blank_message) start refl) refl
