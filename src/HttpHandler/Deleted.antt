-- ===== src/HttpHandler/Deleted.antt =====
-- When a handler object that was deleted is still used.
use nozomi.Common.{◌≡◌, refl, ◌≢◌, ◌↔◌, ◌⊎◌, inl, inr, true, false, arith}
use nozomi.HttpHandler.Lifetime.{
  Life, Inner, unmade, queued, running, recovering, settled, Timer, unset, armed, expired, elapsed,
  Outcome, pending, ready, responded, Action, on_eom, call_handler, complete, fail_handler, recover,
  expire, answer_late, respond, request_complete, on_error, born, act, Permits, Run, here, after,
  Inv, act-Inv, Run-Inv,
}

-- Some callback that uses the object may still run: the user's handler or its `onError`, or else one
-- that comes before the response has been sent.
abbrev pub IsHeld : Life → Type 0
IsHeld s = (s.inner ≡ queued) ⊎ (s.inner ≡ running) ⊎ ((s.inner ≢ unmade) × (s.outcome ≢ responded))

-- A deleted object on which nothing is left to run.
record Quiet (s : Life) : Type 0 where
  dead : s.alive ≡ false
  unused : s.misused ≡ false
  over :
      (s.inner ≡ unmade)
      ⊎ (((s.inner ≡ recovering) ⊎ (s.inner ≡ settled)) × (s.outcome ≡ responded))

act-Quiet : (a : Action) (s : Life) → Permits s a → Inv s → Quiet s → Quiet (act a s)
unfolding act
act-Quiet on_eom s h i q = ground arith
act-Quiet call_handler s h i q = ground arith
act-Quiet complete s h i q = ground arith
act-Quiet fail_handler s h i q = ground arith
act-Quiet recover s h i q = ground arith
act-Quiet expire s h i q = ground arith
act-Quiet answer_late s h i q = ground arith
act-Quiet respond s h i q = ground arith
act-Quiet request_complete s h i q = ground arith
act-Quiet on_error s h i q = ground arith

Run-Quiet : (s : Life) → Inv s → Quiet s → (t : Life) → Run s t → Inv t × Quiet t
Run-Quiet s i q _ here = (i, q)
Run-Quiet s i q _ (after {t = t} a r h) =
    let (i', q') = Run-Quiet s i q t r in (act-Inv a t h i', act-Quiet a t h i' q')

Inner-cases :
    (x : Inner) → (x ≡ unmade) ⊎ (x ≡ queued) ⊎ (x ≡ running) ⊎ (x ≡ recovering) ⊎ (x ≡ settled)
Inner-cases unmade = inl refl
Inner-cases queued = inr (inl refl)
Inner-cases running = inr (inr (inl refl))
Inner-cases recovering = inr (inr (inr (inl refl)))
Inner-cases settled = inr (inr (inr (inr refl)))

Outcome-cases : (x : Outcome) → (x ≡ pending) ⊎ (x ≡ ready) ⊎ (x ≡ responded)
Outcome-cases pending = inl refl
Outcome-cases ready = inr (inl refl)
Outcome-cases responded = inr (inr refl)

Timer-cases : (x : Timer) → (x ≡ unset) ⊎ (x ≡ armed) ⊎ (x ≡ expired) ⊎ (x ≡ elapsed)
Timer-cases unset = inl refl
Timer-cases armed = inr (inl refl)
Timer-cases expired = inr (inr (inl refl))
Timer-cases elapsed = inr (inr (inr refl))

made_of : (s : Life) → (s.inner ≡ recovering) ⊎ (s.inner ≡ settled) → s.inner ≢ unmade
made_of s h = ground arith

IsHeld-or_Quiet : (s : Life) → s.alive ≡ false → s.misused ≡ false → IsHeld s ⊎ Quiet s
IsHeld-or_Quiet s dead unused = elim (Inner-cases s.inner) [
  | inl e ↦ inr (record { dead = dead; unused = unused; over = inl e })
  | inr (inl e) ↦ inl (inl e)
  | inr (inr (inl e)) ↦ inl (inr (inl e))
  | inr (inr (inr late)) ↦ elim (Outcome-cases s.outcome) [
    | inl waits ↦ inl (inr (inr (made_of s late, λ e. cc (e, waits))))
    | inr (inl there) ↦ inl (inr (inr (made_of s late, λ e. cc (e, there))))
    | inr (inr answered) ↦
        inr (record { dead = dead; unused = unused; over = inr (late, answered) })
  ]
]

-- In some continuation the object is used after its deletion.
abbrev pub IsUsedLater : Life → Type 0
IsUsedLater s = (t : Life) × Run s t × (t.misused ≡ true)

called_later : (s : Life) → s.alive ≡ false → s.inner ≡ queued → IsUsedLater s
unfolding act
called_later s dead e = (act call_handler s, after call_handler here e, ground arith)

failed_later : (s : Life) → s.alive ≡ false → s.inner ≡ running → IsUsedLater s
unfolding act
failed_later s dead e = (act fail_handler s, after fail_handler here e, ground arith)

answered_later :
    (s : Life) → Inv s → s.alive ≡ false → s.inner ≢ unmade → s.outcome ≢ responded → IsUsedLater s
unfolding act
answered_later s i dead made unanswered = elim (Timer-cases s.timer) [
  | inl e ↦ absurd (made (i.unset_first e))
  | inr (inl e) ↦ (act expire s, after expire here e, ground arith)
  | inr (inr (inl e)) ↦
      (act respond (act answer_late s), after respond (after answer_late here e) refl, ground arith)
  | inr (inr (inr e)) ↦ elim (Outcome-cases s.outcome) [
    | inl waits ↦ absurd (i.passed.0 e waits)
    | inr (inl there) ↦ (act respond s, after respond here there, ground arith)
    | inr (inr answered) ↦ absurd (unanswered answered)
  ]
]

-- A handler object that has been deleted, in any order of the callbacks, and has not been used since,
-- is used in some continuation exactly when a callback still holds it: the user's handler has been
-- queued or runs, or the chain of futures was made and its response has not been sent.
pub IsUsedLater-iff :
    (s : Life) → Run born s → s.alive ≡ false → s.misused ≡ false → IsUsedLater s ↔ IsHeld s
IsUsedLater-iff s r dead unused =
    let i = Run-Inv s r in
    (
      λ (t, later, used). elim (IsHeld-or_Quiet s dead unused) [
        | inl held ↦ held
        | inr q ↦ let (_, q') = Run-Quiet s i q t later in cc (used, q'.unused)
      ],
      λ h. elim h [
        | inl e ↦ called_later s dead e
        | inr (inl e) ↦ failed_later s dead e
        | inr (inr (made, unanswered)) ↦ answered_later s i dead made unanswered
      ],
    )
