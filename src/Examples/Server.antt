-- ===== src/Examples/Server.antt =====
-- A server over the settings and routes of the other examples, and runs of its threads.
use nozomi.Common.{◌<◌, ◌≡◌, refl, ◌≢◌, ◌↔◌, ◌⊎◌, inl, true, false, arith, ◌+◌}
use nozomi.Server.Threads.{
  absent, starting, ended, joined, stopping, joining, clearing, World, quiet, Action, start,
  started, stop, act, Permits, Run, here, after,
}
use nozomi.Server.Safety.{one_stop, unsettled, stop_ends, rank, IsCall, IsReady}
use nozomi.Server.Early.{GoesAstray, GoesAstray-iff}
use nozomi.Server.Races.{two_stops-abort}

-- A server that serves while a call of `stop` looks at it.
abbrev watched : World
watched = act (stop 0) (act started (act start quiet))

watched-Run : Run 1 quiet watched
unfolding act quiet
watched-Run = after (stop 0) (after started (after start here refl) refl) (ground arith, inl refl)

one_stop_example :
    (watched.aborted ≡ false)
    × ((watched.stops 0 ≡ stopping) ⊎ (watched.stops 0 ≡ joining) → watched.main ≢ absent)
    × ((watched.main ≡ joined) ↔ (watched.stops 0 ≡ clearing))
    × (watched.starts ≡ watched.settled + unsettled watched.main)
unfolding act quiet
one_stop_example = one_stop watched watched-Run (ground arith)

stop_ends_example :
    ((a : Action) × Permits 1 watched a × ¬ IsCall a)
    × ((a : Action)
        → Permits 1 watched a
        → ¬ IsCall a
        → (rank (act a watched) < rank watched) × IsReady (act a watched))
unfolding act quiet
stop_ends_example =
    stop_ends watched watched-Run
      (record { kept = λ e. cc e; found = λ _. inl refl; serves = λ e. cc e }) (ground arith)
      (ground arith)

-- A call of `stop` while the server starts.
abbrev hasty : World
hasty = act (stop 0) (act start quiet)

hasty-Run : Run 1 quiet hasty
unfolding act quiet
hasty-Run = after (stop 0) (after start here refl) (ground arith, inl refl)

GoesAstray-iff_example : GoesAstray hasty ↔ ((hasty.main ≡ starting) ⊎ (hasty.main ≡ ended))
unfolding act quiet
GoesAstray-iff_example = GoesAstray-iff hasty hasty-Run refl

-- Two calls of `stop` look at it.
abbrev besieged : World
besieged = act (stop 1) watched

two_stops-abort_example : (t : World) × Run 2 besieged t × (t.aborted ≡ true)
unfolding act quiet
two_stops-abort_example =
    two_stops-abort 2 0 1 besieged (ground arith) (ground arith) (ground arith) refl refl refl
