-- ===== src/SimpleServer/Main/Ends.antt =====
-- That `main` of the example server ends, and how it leaves the server.
use nozomi.Common.{ℕ, ◌+◌, ◌<◌, ◌≡◌, refl, sym, subst, ◌≢◌, inl, inr, false, arith}
use nozomi.Server.Threads.{
  absent, Stop, idle, checking, stopping, joining, clearing, done, astray, started, act,
}
use nozomi.Server.Safety.{rank, one_stop, stop_ends, rank-act}
use nozomi.SimpleServer.Main.{
  Point, begin, awaiting_start, awaiting_key, awaiting_stop, returned, thrown, State, Event,
  start_server, got_start, key_pressed, got_stop, thread, advance, Permits, IsSettled, IsLive,
  Execution,
}
use nozomi.SimpleServer.Main.Sound.{Sound, at_point, Holds-kept, Execution-Sound}

-- How many steps are left, at most.
abbrev weight : Point → ℕ
weight begin = 20
weight awaiting_start = 16
weight awaiting_key = 10
weight awaiting_stop = 4
weight returned = 0
weight thrown = 0

abbrev pub left : State → ℕ
left s = weight s.point + rank s.world

stop-CanStep :
    (s : State) (q : Stop)
    → s.world.stops 0 ≡ q
    → q ≢ done
    → s.point ≡ awaiting_stop
    → Sound s
    → (e : Event) × Permits e s
stop-CanStep s q e busy p (r, i) =
    let (a, h, call) =
      (let (started_then, _, ready) = at_point s awaiting_stop p i in
        stop_ends s.world r ready started_then (λ d. busy (cc (e, d)))).0 in
    (thread a, (subst IsLive (sym p) tt, call, h))

stop_over :
    (s : State) (q : Stop)
    → s.world.stops 0 ≡ q
    → s.point ≡ awaiting_stop
    → Sound s
    → (e : Event) × Permits e s
stop_over s done e p x = (got_stop, (p, e))
stop_over s idle e p x = stop-CanStep s idle e (λ d. cc d) p x
stop_over s checking e p x = stop-CanStep s checking e (λ d. cc d) p x
stop_over s stopping e p x = stop-CanStep s stopping e (λ d. cc d) p x
stop_over s joining e p x = stop-CanStep s joining e (λ d. cc d) p x
stop_over s astray e p x = stop-CanStep s astray e (λ d. cc d) p x
stop_over s clearing e p x = stop-CanStep s clearing e (λ d. cc d) p x

unended-CanStep :
    (s : State) (p : Point)
    → s.point ≡ p
    → Sound s
    → p ≢ returned
    → p ≢ thrown
    → (e : Event) × Permits e s
unended-CanStep s begin e x n n' = (start_server, e)
unended-CanStep s awaiting_start e (r, i) n n' = elim (at_point s awaiting_start e i).1 [
  | inl m ↦ (thread started, (subst IsLive (sym e) tt, (λ c. c), m))
  | inr (inl m) ↦ (got_start, (e, subst IsSettled (sym m) tt))
  | inr (inr m) ↦ (got_start, (e, subst IsSettled (sym m) tt))
]
unended-CanStep s awaiting_key e x n n' = (key_pressed, e)
unended-CanStep s awaiting_stop e x n n' = stop_over s (s.world.stops 0) refl e x
unended-CanStep s returned e x n n' = absurd (n refl)
unended-CanStep s thrown e x n n' = absurd (n' refl)

advance-left : (e : Event) (s : State) → Sound s → Permits e s → left (advance e s) < left s
unfolding advance act
advance-left start_server s (r, i) h = let (q, m) = at_point s begin h i in ground (arith, h, q, m)
advance-left got_start s (r, i) (p, h) =
    let (q, m) = at_point s awaiting_start p i in ground (arith, p, m)
advance-left key_pressed s (r, i) h =
    let (q, m) = at_point s awaiting_key h i in ground (arith, h, q, m)
advance-left got_stop s (r, i) (p, h) = ground (arith, p)
advance-left (thread a) s (r, i) (live, call, h) = omega (arith, rank-act a s.world r h call)

-- In every order of the steps of `main` and of the threads of the server: nothing aborts, and
-- HTTPServer::stop is called on no server that does not serve; when `main` returns, the thread of the server has been joined and cleared, and every future of the server has been
-- completed; until `main` returns, or throws what the server could not start with, some step may be
-- taken; and every step lowers the number of steps that are left, so that `main` ends.
-- It is assumed of the server what `Permits` says, that a key is pressed, and that no other thread stops
-- the server.
pub main_ends :
    (s : State)
    → Execution s
    → (s.world.aborted ≡ false)
      × (s.world.stops 0 ≢ astray)
      × (s.point ≡ returned
          → (s.world.main ≡ absent) × (s.world.stops 0 ≡ done) × (s.world.starts ≡ s.world.settled))
      × (s.point ≢ returned → s.point ≢ thrown → (e : Event) × Permits e s)
      × ((e : Event) → Permits e s → left (advance e s) < left s)
main_ends s x =
    let (r, i) = Execution-Sound x in
    let kept = Holds-kept s.point s.world i in
    let (whole, _, _, promised) = one_stop s.world r kept in
    (
      whole,
      kept,
      (λ e. let (d, m) = at_point s returned e i in (m, d, ground (arith, m, promised))),
      (λ n n'. unended-CanStep s s.point refl (r, i) n n'),
      λ e h. advance-left e s (r, i) h,
    )
