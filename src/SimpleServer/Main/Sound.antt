-- ===== src/SimpleServer/Main/Sound.antt =====
-- What holds of the threads of the example server, wherever its `main` stands.
use nozomi.Common.{zero, suc, ◌≡◌, refl, subst, ◌≢◌, ◌⊎◌, inl, inr, arith}
use nozomi.Server.Threads.{
  Main, absent, starting, serving, ended, joined, Stop, idle, checking, stopping, joining, clearing,
  done, astray, World, quiet, Action, start, started, failed, finished, stop, check, shut, join,
  clear, act, Run, here, after,
}
use nozomi.Server.Threads
use nozomi.Server.Safety.{IsCall, IsReady, act-IsReady, Run-Inv}
use nozomi.SimpleServer.Main.{
  Point, begin, awaiting_start, awaiting_key, awaiting_stop, returned, thrown, State, launched,
  Event, start_server, got_start, key_pressed, got_stop, thread, after_start, advance, Permits,
  IsSettled, IsLive, Execution, first, next,
}

-- What holds of the threads, wherever `main` stands.
abbrev pub Holds : Point → World → Type 0
Holds begin w = (w.stops 0 ≡ idle) × (w.main ≡ absent)
Holds awaiting_start w =
    (w.stops 0 ≡ idle) × ((w.main ≡ starting) ⊎ ((w.main ≡ serving) ⊎ (w.main ≡ ended)))
Holds awaiting_key w = (w.stops 0 ≡ idle) × (w.main ≡ serving)
Holds awaiting_stop w = (w.stops 0 ≢ idle) × (w.stops 0 ≡ done → w.main ≡ absent) × IsReady w
Holds returned w = (w.stops 0 ≡ done) × (w.main ≡ absent)
Holds thrown w = (w.stops 0 ≡ idle) × (w.main ≡ ended)

-- While nothing stops the server, only its start can come to an end.
idle_thread :
    (a : Action) (w : World)
    → ¬ IsCall a
    → Threads.Permits 1 w a
    → w.stops 0 ≡ idle
    → (w.main ≡ starting) × ((a ≡ started) ⊎ (a ≡ failed))
idle_thread start w call h i = absurd (call tt)
idle_thread (stop k) w call h i = absurd (call tt)
idle_thread started w call h i = (h, inl refl)
idle_thread failed w call h i = (h, inr refl)
idle_thread finished w call (_, (zero, _, e)) i = cc (i, e)
idle_thread finished w call (_, (suc k, low, _)) i = absurd (omega (arith, low))
idle_thread (check zero) w call h i = cc (i, h.1)
idle_thread (check (suc k)) w call h i = absurd (omega (arith, h.0))
idle_thread (shut zero) w call h i = cc (i, h.1)
idle_thread (shut (suc k)) w call h i = absurd (omega (arith, h.0))
idle_thread (join zero) w call h i = cc (i, h.1)
idle_thread (join (suc k)) w call h i = absurd (omega (arith, h.0))
idle_thread (clear zero) w call h i = cc (i, h.1)
idle_thread (clear (suc k)) w call h i = absurd (omega (arith, h.0))

-- A call of `stop` that goes on ends without a main thread.
stop_thread :
    (a : Action) (w : World)
    → ¬ IsCall a
    → Threads.Permits 1 w a
    → (w.stops 0 ≢ idle) × (w.stops 0 ≡ done → w.main ≡ absent)
    → IsReady w
    → ((act a w).stops 0 ≢ idle) × ((act a w).stops 0 ≡ done → (act a w).main ≡ absent)
unfolding act
stop_thread start w call h i r = absurd (call tt)
stop_thread (stop k) w call h i r = absurd (call tt)
stop_thread started w call h i r = ground arith
stop_thread failed w call h i r = ground arith
stop_thread finished w call h i r = ground arith
stop_thread (check zero) w call h i r = ground arith
stop_thread (check (suc k)) w call h i r = absurd (omega (arith, h.0))
stop_thread (shut zero) w call h i r = ground arith
stop_thread (shut (suc k)) w call h i r = absurd (omega (arith, h.0))
stop_thread (join zero) w call h i r = ground arith
stop_thread (join (suc k)) w call h i r = absurd (omega (arith, h.0))
stop_thread (clear zero) w call h i r = ground arith
stop_thread (clear (suc k)) w call h i r = absurd (omega (arith, h.0))

started-Holds :
    (a : Action) (w : World)
    → w.stops 0 ≡ idle
    → (a ≡ started) ⊎ (a ≡ failed)
    → Holds awaiting_start (act a w)
unfolding act
started-Holds a w i (inl e) = rw e (i, inr (inl refl))
started-Holds a w i (inr e) = rw e (i, inr (inr refl))

thread-Holds :
    (p : Point) (a : Action) (w : World)
    → IsLive p
    → ¬ IsCall a
    → Threads.Permits 1 w a
    → Run 1 quiet w
    → Holds p w
    → Holds p (act a w)
thread-Holds begin a w live call h r (i, m) = cc (m, (idle_thread a w call h i).0)
thread-Holds awaiting_start a w live call h r (i, m) =
    started-Holds a w i (idle_thread a w call h i).1
thread-Holds awaiting_key a w live call h r (i, m) = cc (m, (idle_thread a w call h i).0)
thread-Holds awaiting_stop a w live call h r (busy, over, ready) =
    let (busy', over') = stop_thread a w call h (busy, over) ready in
    (busy', over', act-IsReady a w (Run-Inv w r) h call ready)
thread-Holds returned a w live call h r i = absurd live
thread-Holds thrown a w live call h r i = absurd live

-- The threads have run as those of a server that one thread stops.
abbrev pub Sound : State → Type 0
Sound s = Run 1 quiet s.world × Holds s.point s.world

got_start-Holds :
    (m : Main) (w : World)
    → w.main ≡ m
    → IsSettled m
    → Holds awaiting_start w
    → Holds (after_start m) w
got_start-Holds absent w e h i = absurd h
got_start-Holds starting w e h i = absurd h
got_start-Holds serving w e h (i, m) = (i, e)
got_start-Holds ended w e h (i, m) = (i, e)
got_start-Holds joined w e h (i, inl m) = cc (e, m)
got_start-Holds joined w e h (i, inr (inl m)) = cc (e, m)
got_start-Holds joined w e h (i, inr (inr m)) = cc (e, m)

-- `main` stops a server that serves.
pub Holds-kept : (p : Point) (w : World) → Holds p w → w.stops 0 ≢ astray
Holds-kept begin w (i, m) e = cc (i, e)
Holds-kept awaiting_start w (i, m) e = cc (i, e)
Holds-kept awaiting_key w (i, m) e = cc (i, e)
Holds-kept awaiting_stop w (busy, over, ready) e = ready.kept e
Holds-kept returned w (i, m) e = cc (i, e)
Holds-kept thrown w (i, m) e = cc (i, e)

pub at_point : (s : State) (p : Point) → s.point ≡ p → Holds s.point s.world → Holds p s.world
at_point s p e h = subst (λ p. Holds p s.world) e h

advance-Sound : (e : Event) (s : State) → Permits e s → Sound s → Sound (advance e s)
unfolding advance act
advance-Sound start_server s h (r, i) =
    let (idle_then, m) = at_point s begin h i in (after start r m, ground arith)
advance-Sound got_start s (p, h) (r, i) =
    (r, got_start-Holds s.world.main s.world refl h (at_point s awaiting_start p i))
advance-Sound key_pressed s h (r, i) =
    let (idle_then, m) = at_point s awaiting_key h i in
    (
      after (stop 0) r (ground arith, inl idle_then),
      (λ e. cc e, (λ e. cc e), record { kept = λ e. cc e; found = λ e. inl m; serves = λ e. cc e }),
    )
advance-Sound got_stop s (p, e) (r, i) =
    (r, let (_, over, _) = at_point s awaiting_stop p i in (e, over e))
advance-Sound (thread a) s (live, call, h) (r, i) =
    (after a r h, thread-Holds s.point a s.world live call h r i)

pub Execution-Sound : {s : State} → Execution s → Sound s
unfolding launched quiet
Execution-Sound first = (here, (refl, refl))
Execution-Sound (next {s = s} e x h) = advance-Sound e s h (Execution-Sound x)
