-- ===== src/Streaming/Errors.antt =====
-- What happens when the implementation class does not stop at an error.
use nozomi.Common.{ℕ, ◌<◌, ◌≡◌, refl, sym, ap, subst, ◌∙◌, true, false, [], ◌∷◌, ◌++◌, arith, ◌==◌}
use nozomi.Libs.{Libs}
use nozomi.Streaming.{
  body_task, delete_task, StreamingHandler, head_length, send_body, on_error, post,
}
use nozomi.Streaming.Lifetime.{Connection, use_object, run_next}

module _ (L : Libs) where
  not_empty : (n : ℕ) → 0 < n → (n == 0) ≡ false
  not_empty n h = ground arith

  send_body-post :
      (buf : L.IOBuf) (s : StreamingHandler L)
      → 0 < head_length L buf
      → send_body L buf s ≡ post L (body_task buf) s
  unfolding send_body
  send_body-post buf s h = rw (not_empty (head_length L buf) h) refl

  use_object_alive :
      (f : StreamingHandler L → StreamingHandler L) (c : Connection L)
      → c.alive ≡ true
      → use_object L f c ≡ record c { handler = f c.handler }
  use_object_alive f c alive = ground arith

  misused_run :
      (c : Connection L) (buf : L.IOBuf) (s : StreamingHandler L)
      → c.alive ≡ true
      → s.queue ≡ delete_task ∷ body_task buf ∷ []
      → (run_next L (run_next L (record c { handler = s }))).misused ≡ true
  misused_run c buf s alive e = ground arith

  -- A buffer that is sent after `onError`, but before the event base has deleted the handler, is
  -- sent by a task that uses the deleted handler: its callback holds `this`, and runs last.
  pub send_body-misused :
      (c : Connection L) (buf : L.IOBuf)
      → c.alive ≡ true
      → c.handler.queue ≡ []
      → 0 < head_length L buf
      → (run_next L
          (run_next L (use_object L (send_body L buf) (use_object L (on_error L) c)))).misused
        ≡ true
  unfolding on_error
  send_body-misused c buf alive empty h =
      let failed = record c { handler = on_error L c.handler } in
      subst (λ d. (run_next L (run_next L (use_object L (send_body L buf) d))).misused ≡ true)
        (sym (use_object_alive (on_error L) c alive))
        (subst (λ d. (run_next L (run_next L d)).misused ≡ true)
          (sym (use_object_alive (send_body L buf) failed alive))
          (misused_run failed buf (send_body L buf failed.handler) alive (
            ap (λ s. s.queue) (send_body-post buf failed.handler h)
            ∙ ap (λ q. (q ++ delete_task ∷ []) ++ body_task buf ∷ []) empty)))
