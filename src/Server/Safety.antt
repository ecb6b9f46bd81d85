-- ===== src/Server/Safety.antt =====
-- A server that at most one thread stops at a time: its safety, and when a stop comes to its end.
use nozomi.Common.{ℕ, zero, suc, ◌+◌, ◌<◌, ◌≡◌, refl, ◌≢◌, ◌↔◌, ◌⊎◌, inl, inr, false, arith}
use nozomi.Server.Threads.{
  Main, absent, starting, serving, ended, joined, Stop, idle, checking, stopping, joining, clearing,
  done, astray, World, quiet, Action, start, started, failed, finished, stop, check, shut, join,
  clear, act, Permits, Run, here, after,
}

-- The promise of the main thread, while it starts.
abbrev pub unsettled : Main → ℕ
unsettled starting = 1
unsettled _ = 0

-- What holds with one stop thread: the main thread is there while it is stopped, it serves or has
-- ended when it is joined, and was joined exactly when it is about to be cleared.
pub record Inv (s : World) : Type 0 where
  pub whole : s.aborted ≡ false
  pub there :
      (s.stops 0 ≡ stopping) ⊎ (s.stops 0 ≡ joining) ⊎ (s.stops 0 ≡ astray) → s.main ≢ absent
  pub begun : s.stops 0 ≡ joining → s.main ≢ starting
  pub joined_once : (s.main ≡ joined) ↔ (s.stops 0 ≡ clearing)
  pub promised : s.starts ≡ s.settled + unsettled s.main

quiet-Inv : Inv quiet
unfolding quiet
quiet-Inv = ground arith

pub act-Inv : (a : Action) (s : World) → Permits 1 s a → Inv s → Inv (act a s)
unfolding act
act-Inv start s h i = ground arith
act-Inv started s h i = ground arith
act-Inv failed s h i = ground arith
act-Inv finished s h i = ground arith
act-Inv (stop zero) s h i = ground arith
act-Inv (stop (suc k)) s h i = absurd (omega (arith, h.0))
act-Inv (check zero) s h i = ground arith
act-Inv (check (suc k)) s h i = absurd (omega (arith, h.0))
act-Inv (shut zero) s h i = ground arith
act-Inv (shut (suc k)) s h i = absurd (omega (arith, h.0))
act-Inv (join zero) s h i = ground arith
act-Inv (join (suc k)) s h i = absurd (omega (arith, h.0))
act-Inv (clear zero) s h i = ground arith
act-Inv (clear (suc k)) s h i = absurd (omega (arith, h.0))

pub Run-Inv : (s : World) → Run 1 quiet s → Inv s
Run-Inv _ here = quiet-Inv
Run-Inv _ (after {t = t} a r h) = act-Inv a t h (Run-Inv t r)

-- While no two calls of `stop` overlap, `start` is called on a server without a main thread, and
-- HTTPServer::stop has been called only on a server that serves, in any interleaving: nothing is
-- thrown, and no thread is cleared that was not joined; a thread that is stopped or joined is there; it
-- was joined exactly when it is about to be cleared; and every call of `start` has had its future
-- completed, but for one whose server is still starting.
pub one_stop :
    (s : World)
    → Run 1 quiet s
    → s.stops 0 ≢ astray
    → (s.aborted ≡ false)
      × ((s.stops 0 ≡ stopping) ⊎ (s.stops 0 ≡ joining) → s.main ≢ absent)
      × ((s.main ≡ joined) ↔ (s.stops 0 ≡ clearing))
      × (s.starts ≡ s.settled + unsettled s.main)
one_stop s r kept =
    let i = Run-Inv s r in (i.whole, (λ h. ground (arith, h, i.there)), i.joined_once, i.promised)

abbrev main_rank : Main → ℕ
main_rank absent = 0
main_rank starting = 3
main_rank serving = 2
main_rank ended = 1
main_rank joined = 0

abbrev stop_rank : Stop → ℕ
stop_rank idle = 0
stop_rank checking = 4
stop_rank stopping = 3
stop_rank joining = 2
stop_rank clearing = 1
stop_rank done = 0
stop_rank astray = 0

-- How many steps the threads can still take, at most, before the next call of `start` or `stop`.
abbrev pub rank : World → ℕ
rank s = main_rank s.main + stop_rank (s.stops 0)

abbrev pub IsCall : Action → Type 0
IsCall start = Unit
IsCall (stop i) = Unit
IsCall _ = ⊥

act-rank : (a : Action) (s : World) → Inv s → Permits 1 s a → ¬ IsCall a → rank (act a s) < rank s
unfolding act
act-rank start s i h n = absurd (n tt)
act-rank started s i h n = ground arith
act-rank failed s i h n = ground arith
act-rank finished s i h n = ground arith
act-rank (stop k) s i h n = absurd (n tt)
act-rank (check zero) s i h n = ground arith
act-rank (check (suc k)) s i h n = absurd (omega (arith, h.0))
act-rank (shut zero) s i h n = ground arith
act-rank (shut (suc k)) s i h n = absurd (omega (arith, h.0))
act-rank (join zero) s i h n = ground arith
act-rank (join (suc k)) s i h n = absurd (omega (arith, h.0))
act-rank (clear zero) s i h n = ground arith
act-rank (clear (suc k)) s i h n = absurd (omega (arith, h.0))

-- Every step of a thread, which is no call of `start` or `stop`, lowers the rank.
pub rank-act :
    (a : Action) (s : World) → Run 1 quiet s → Permits 1 s a → ¬ IsCall a → rank (act a s) < rank s
rank-act a s r h n = act-rank a s (Run-Inv s r) h n

-- The call of `stop` finds a server that serves, or one without a main thread.
pub record IsReady (s : World) : Type 0 where
  pub kept : s.stops 0 ≢ astray
  pub found : s.stops 0 ≡ checking → (s.main ≡ serving) ⊎ (s.main ≡ absent)
  pub serves : s.stops 0 ≡ stopping → s.main ≡ serving

only_thread : (s : World) → ((i : ℕ) × (i < 1) × (s.stops i ≡ joining)) → s.stops 0 ≡ joining
only_thread s (zero, low, e) = e
only_thread s (suc k, low, e) = absurd (omega (arith, low))

pub act-IsReady :
    (a : Action) (s : World) → Inv s → Permits 1 s a → ¬ IsCall a → IsReady s → IsReady (act a s)
unfolding act
act-IsReady start s i h n r = absurd (n tt)
act-IsReady started s i h n r = ground arith
act-IsReady failed s i h n r = ground arith
act-IsReady finished s i h n r = let e = only_thread s h.1 in ground (arith, e)
act-IsReady (stop k) s i h n r = absurd (n tt)
act-IsReady (check zero) s i h n r = ground arith
act-IsReady (check (suc k)) s i h n r = absurd (omega (arith, h.0))
act-IsReady (shut zero) s i h n r = ground arith
act-IsReady (shut (suc k)) s i h n r = absurd (omega (arith, h.0))
act-IsReady (join zero) s i h n r = ground arith
act-IsReady (join (suc k)) s i h n r = absurd (omega (arith, h.0))
act-IsReady (clear zero) s i h n r = ground arith
act-IsReady (clear (suc k)) s i h n r = absurd (omega (arith, h.0))

abbrev CanStep : World → Type 0
CanStep s = (a : Action) × Permits 1 s a × ¬ IsCall a

join-CanStep : (s : World) (m : Main) → s.main ≡ m → Inv s → s.stops 0 ≡ joining → CanStep s
join-CanStep s absent m i e = absurd (i.there (inr (inl e)) m)
join-CanStep s starting m i e = absurd (i.begun e m)
join-CanStep s serving m i e = (finished, (m, (0, ground arith, e)), λ c. c)
join-CanStep s ended m i e = (join 0, (ground arith, e, ground arith, ground arith), λ c. c)
join-CanStep s joined m i e = (join 0, (ground arith, e, ground arith, ground arith), λ c. c)

unfinished-CanStep :
    (s : World) (p : Stop) → s.stops 0 ≡ p → Inv s → p ≢ idle → p ≢ done → p ≢ astray → CanStep s
unfinished-CanStep s idle e i busy undone kept = absurd (busy refl)
unfinished-CanStep s done e i busy undone kept = absurd (undone refl)
unfinished-CanStep s astray e i busy undone kept = absurd (kept refl)
unfinished-CanStep s checking e i busy undone kept = (check 0, (ground arith, e), λ c. c)
unfinished-CanStep s stopping e i busy undone kept = (shut 0, (ground arith, e), λ c. c)
unfinished-CanStep s joining e i busy undone kept = join-CanStep s s.main refl i e
unfinished-CanStep s clearing e i busy undone kept = (clear 0, (ground arith, e), λ c. c)

-- A call of `stop` that finds a server that serves, or one without a main thread, comes to its end in
-- every schedule, if no other overlaps with it and `start` is not called: until it has, some step may be
-- taken; and every step lowers the rank, and leaves the call one that finds such a server, so that
-- HTTPServer::stop is called on no other.
pub stop_ends :
    (s : World)
    → Run 1 quiet s
    → IsReady s
    → s.stops 0 ≢ idle
    → s.stops 0 ≢ done
    → ((a : Action) × Permits 1 s a × ¬ IsCall a)
      × ((a : Action) → Permits 1 s a → ¬ IsCall a → (rank (act a s) < rank s) × IsReady (act a s))
stop_ends s r ready busy undone =
    let i = Run-Inv s r in
    (
      unfinished-CanStep s (s.stops 0) refl i busy undone ready.kept,
      λ a h n. (act-rank a s i h n, act-IsReady a s i h n ready),
    )
