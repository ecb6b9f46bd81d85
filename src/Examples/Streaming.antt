-- ===== src/Examples/Streaming.antt =====
-- Streaming handlers: a response in two pieces, and an error in the middle of one.
use nozomi.Common.{◌++◌, ◌↔◌, flatten, ◌≡◌, refl, true, false, none, some, [], ◌∷◌, arith, codes}
use nozomi.Libs.Sample.{SampleBuffer, chain, sample, blank_message}
use nozomi.Http.{response_of_status, get_body}
use nozomi.Streaming.{
  calls_of, headers_task, head_length, make_streaming_handler, send_body, on_error,
}
use nozomi.Streaming.Lifetime.{
  Connection, Session, Reach, start, step, receive, send_headers, run, fresh, advance, use_object,
  run_next,
}
use nozomi.Streaming.Sent.{IsSentIn, render}
use nozomi.Streaming.Protocol.{IsInOrder, Reach-IsInOrder}
use nozomi.Streaming.Bodies.{body_bytes}
use nozomi.Streaming.Lost.{IsPassed, sent_iff}
use nozomi.Streaming.Errors.{send_body-misused}

abbrev received_session : Session sample
received_session = advance sample (receive tt blank_message) (fresh sample none)

abbrev headed : Session sample
headed = advance sample (send_headers (response_of_status sample 200)) received_session

abbrev sending : Session sample
sending = advance sample run headed

sending-Reach : Reach sample none sending
sending-Reach =
    step run
      (step (send_headers (response_of_status sample 200))
        (step (receive tt blank_message) start refl) refl)
      tt

Reach-IsInOrder_example :
    (sending.connection.misused ≡ false)
    × IsSentIn sample sending.phase sending.sent
    × IsInOrder sample sending
Reach-IsInOrder_example = Reach-IsInOrder sample none sending sending-Reach

abbrev open_connection : Connection sample
open_connection = record {
  handler = record (make_streaming_handler sample (some tt)) { response_builder = some [] };
  alive = true;
  misused = false;
}

send_body-misused_example :
    (run_next sample (
      run_next sample (
        use_object sample
          (send_body sample (chain (codes "ab" ∷ [])))
          (use_object sample (on_error sample) open_connection)))).misused
    ≡ true
unfolding head_length make_streaming_handler
send_body-misused_example =
    send_body-misused sample open_connection (chain (codes "ab" ∷ [])) refl refl (omega arith)

-- A chain that begins with an empty buffer.
abbrev hollow : SampleBuffer
hollow = chain ([] ∷ codes "ab" ∷ [])

sent_iff_example :
    let found = response_of_status sample 404 in
    let s = make_streaming_handler sample none in
    ((body_bytes sample (calls_of sample (headers_task found))
        ≡ flatten (sample.chunks (get_body sample found)))
      ↔ IsPassed sample (get_body sample found))
    × ((body_bytes sample (render sample (send_body sample hollow s).queue)
          ≡ body_bytes sample (render sample s.queue) ++ flatten (sample.chunks hollow))
        ↔ IsPassed sample hollow)
sent_iff_example =
    sent_iff sample (response_of_status sample 404) hollow (make_streaming_handler sample none)
