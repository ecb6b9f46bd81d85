-- ===== src/Examples/Lifetimes.antt =====
-- Lives of handler objects.
use nozomi.Common.{◌≤◌, ◌≡◌, refl, ◌↔◌, ◌⊎◌, true}
use nozomi.HttpHandler.Lifetime.{
  Life, born, Run, here, after, act, on_eom, call_handler, fail_handler, expire, answer_late,
  respond, request_complete, responded, one_response, misused_cause,
}
use nozomi.HttpHandler.Deleted.{IsHeld, IsUsedLater, IsUsedLater-iff}

abbrev slow : Life
slow = act call_handler (act on_eom born)

slow-Run : Run born slow
unfolding act born
slow-Run = after call_handler (after on_eom here (refl, refl)) refl

one_response_example : (slow.responses ≤ 1) × ((slow.outcome ≡ responded) ↔ (slow.responses ≡ 1))
one_response_example = one_response slow slow-Run

abbrev answered : Life
answered = act request_complete (act respond (act answer_late (act expire slow)))

answered-Run : Run born answered
unfolding act born
answered-Run =
    after request_complete
      (after respond (after answer_late (after expire slow-Run refl) refl) refl) (refl, refl)

IsUsedLater-iff_example : IsUsedLater answered ↔ IsHeld answered
unfolding act born
IsUsedLater-iff_example = IsUsedLater-iff answered answered-Run refl refl

abbrev deleted : Life
deleted = act fail_handler answered

deleted-Run : Run born deleted
unfolding act born
deleted-Run = after fail_handler answered-Run refl

misused_cause_example : (deleted.timed_out ≡ true) ⊎ (deleted.failed ≡ true)
unfolding act born
misused_cause_example = misused_cause deleted deleted-Run refl
