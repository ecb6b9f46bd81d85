-- ===== src/HttpHandler/Lifetime.antt =====
-- The life of an HTTPHandler object: proxygen's callbacks, interleaved with the callbacks of the chain
-- of futures, which hold `this`. A future that is destroyed still runs its callbacks.
use nozomi.Common.{ℕ, ◌+◌, ◌≤◌, ◌≡◌, refl, ◌≢◌, ◌↔◌, ◌⊎◌, Bool, true, false, arith, if◌then◌else◌}

-- The future of the user's handler with its `onError`: not made, queued on the executor, waiting for
-- the user's future, waiting for that of the 500 handler, or completed.
pub data Inner : Type 0 where
  unmade queued running recovering settled : Inner

-- `onTimeout`: not made, waiting, waiting for the future of the 503 handler, or completed.
pub data Timer : Type 0 where
  unset armed expired elapsed : Timer

-- The end of the chain: no response, one for the last `then`, or one that was sent.
pub data Outcome : Type 0 where
  pending ready responded : Outcome

-- `misused` once the object was used after its deletion; `timed_out` and `failed` once the timeout
-- passed, and once `onError` was called; `responses` counts the calls of sendResponse.
pub record Life : Type 0 where
  pub alive : Bool
  pub misused : Bool
  pub inner : Inner
  pub timer : Timer
  pub outcome : Outcome
  pub timed_out : Bool
  pub failed : Bool
  pub responses : ℕ

unfoldable pub born : Life
born = record {
  alive = true;
  misused = false;
  inner = unmade;
  timer = unset;
  outcome = pending;
  timed_out = false;
  failed = false;
  responses = 0;
}

pub data Action : Type 0 where
  on_eom call_handler complete fail_handler recover : Action
  expire answer_late respond request_complete on_error : Action

-- A callback uses `this`.
abbrev touch : Life → Life
touch s = if s.alive then s else record s { misused = true }

-- The inner future completes: `onTimeout` passes it on, if it still waits.
abbrev pass : Timer → Life → Life
pass armed s = record s { inner = settled; timer = elapsed; outcome = ready }
pass unset s = record s { inner = settled }
pass expired s = record s { inner = settled }
pass elapsed s = record s { inner = settled }

unfoldable pub act : Action → Life → Life
act on_eom s = record s { inner = queued; timer = armed }
act call_handler s = record (touch s) { inner = running }
act complete s = pass s.timer s
act fail_handler s = record (touch s) { inner = recovering }
act recover s = pass s.timer s
act expire s = record (touch s) { timer = expired; timed_out = true }
act answer_late s = record s { timer = elapsed; outcome = ready }
act respond s = record (touch s) { outcome = responded; responses = s.responses + 1 }
act request_complete s = record s { alive = false }
act on_error s = record s { alive = false; failed = true }

-- When an action may happen. proxygen calls `requestComplete` once the response is sent, `onError` at
-- any time, and nothing after either.
abbrev pub Permits : Life → Action → Type 0
Permits s on_eom = (s.alive ≡ true) × (s.inner ≡ unmade)
Permits s call_handler = s.inner ≡ queued
Permits s complete = s.inner ≡ running
Permits s fail_handler = s.inner ≡ running
Permits s recover = s.inner ≡ recovering
Permits s expire = s.timer ≡ armed
Permits s answer_late = s.timer ≡ expired
Permits s respond = s.outcome ≡ ready
Permits s request_complete = (s.alive ≡ true) × (s.outcome ≡ responded)
Permits s on_error = s.alive ≡ true

pub data Run (s : Life) : Life → Type 0 where
  here : Run s s
  after : {t : Life} (a : Action) → Run s t → Permits t a → Run s (act a t)

pub record Inv (s : Life) : Type 0 where
  pub once : s.responses ≤ 1
  pub counted : (s.outcome ≡ responded) ↔ (s.responses ≡ 1)
  pub fresh : s.inner ≡ unmade → s.timer ≡ unset
  pub passed : (s.timer ≡ elapsed) ↔ (s.outcome ≢ pending)
  pub raced : s.timer ≡ elapsed → s.timed_out ≡ false → s.inner ≡ settled
  pub waiting : s.timer ≡ expired → s.timed_out ≡ true
  pub unset_first : s.timer ≡ unset → s.inner ≡ unmade
  pub whole : s.failed ≡ false → s.alive ≡ false → s.outcome ≡ responded
  pub safe : s.failed ≡ false → s.timed_out ≡ false → s.misused ≡ false

born-Inv : Inv born
unfolding born
born-Inv = ground arith

pub act-Inv : (a : Action) (s : Life) → Permits s a → Inv s → Inv (act a s)
unfolding act
act-Inv on_eom s h i = ground arith
act-Inv call_handler s h i = ground arith
act-Inv complete s h i = ground arith
act-Inv fail_handler s h i = ground arith
act-Inv recover s h i = ground arith
act-Inv expire s h i = ground arith
act-Inv answer_late s h i = ground arith
act-Inv respond s h i = ground arith
act-Inv request_complete s h i = ground arith
act-Inv on_error s h i = ground arith

pub Run-Inv : (s : Life) → Run born s → Inv s
Run-Inv _ here = born-Inv
Run-Inv _ (after {t = t} a r h) = act-Inv a t h (Run-Inv t r)

-- Whatever the order in which the handler, the timeout, the error handlers and the connection come
-- to their ends, at most one response is sent, and the chain is done exactly when one was.
pub one_response :
    (s : Life) → Run born s → (s.responses ≤ 1) × ((s.outcome ≡ responded) ↔ (s.responses ≡ 1))
one_response s r = let i = Run-Inv s r in (i.once, i.counted)

-- A handler object is used after its deletion only if its timeout has passed, or its connection has
-- failed: otherwise it is deleted when every callback that holds it has run.
pub misused_cause :
    (s : Life) → Run born s → s.misused ≡ true → (s.timed_out ≡ true) ⊎ (s.failed ≡ true)
misused_cause s r h = let i = Run-Inv s r in ground (arith, i.safe)

-- A timeout is enough, without an error of the connection: while the user's handler still runs, the
-- 503 response may be sent and the object deleted; when the handler then fails, its `onError` uses
-- the deleted object.
slow_failure-misused :
    (s : Life)
    → s.alive ≡ true
    → s.inner ≡ running
    → s.timer ≡ armed
    → (t : Life) × Run s t × (t.misused ≡ true) × (t.failed ≡ s.failed)
unfolding act
slow_failure-misused s alive slow waiting = (
  act fail_handler (act request_complete (act respond (act answer_late (act expire s)))),
  after fail_handler
      (after request_complete
        (after respond (after answer_late (after expire here waiting) refl) refl)
        (ground arith, refl))
      (ground arith),
  ground arith,
  ground arith,
)
