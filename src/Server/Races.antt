-- ===== src/Server/Races.antt =====
-- Several calls of `start` and of `stop` on one server.
use nozomi.Common.{
  ℕ, zero, suc, ◌+◌, ◌<◌, ◌≡◌, refl, sym, subst, ◌≢◌, ◌⊎◌, inl, inr, Bool, true, false, arith,
}
use nozomi.Server.Threads.{
  Main, absent, serving, Stop, idle, checking, stopping, joining, clearing, done, World, quiet, set,
  start, started, finished, stop, check, shut, join, clear, act, Run, here, after,
}

-- The threads `i` and `j` of two calls of `stop` both pass the test, and stop the server; `i` joins
-- the main thread, and then `j` does.
abbrev race : ℕ → ℕ → World → World
race i j s =
    act (join j)
      (act (join i) (act finished (act (shut j) (act (shut i) (act (check j) (act (check i) s))))))

abbrev at_main : Main → (ℕ → Stop) → ℕ → ℕ → Bool → World
at_main m f k l b = record { main = m; stops = f; starts = k; settled = l; aborted = b }

race-Run :
    (n i j : ℕ) (f : ℕ → Stop) (k l : ℕ) (b : Bool)
    → i < n
    → j < n
    → i ≢ j
    → f i ≡ checking
    → f j ≡ checking
    → Run n (at_main serving f k l b) (race i j (at_main serving f k l b))
unfolding act
race-Run n i j f k l b i_bound j_bound distinct first second =
    after (join j)
      (after (join i)
        (after finished
          (after (shut j)
            (after (shut i)
              (after (check j) (after (check i) here (i_bound, first)) (j_bound, ground arith))
              (i_bound, ground arith))
            (j_bound, ground arith))
          (refl, (i, i_bound, ground arith)))
        (i_bound, ground arith, ground arith, ground arith))
      (j_bound, ground arith, ground arith, ground arith)

-- When two calls of `stop` overlap on a server that serves, both may find the main thread there, and
-- the second `join` throws on a detached thread of its own, which ends the program.
pub two_stops-abort :
    (n i j : ℕ) (s : World)
    → i < n
    → j < n
    → i ≢ j
    → s.main ≡ serving
    → s.stops i ≡ checking
    → s.stops j ≡ checking
    → (t : World) × Run n s t × (t.aborted ≡ true)
unfolding act
two_stops-abort n i j s i_bound j_bound distinct on first second = (
  race i j s,
  subst (λ m. let w = record s { main = m } in Run n w (race i j w)) (sym on)
      (race-Run n i j s.stops s.starts s.settled s.aborted i_bound j_bound distinct first second),
  refl,
)

-- Starts, and stops again.
abbrev cycle : World → World
cycle s = act (clear 0) (
    act (join 0)
      (act finished (act (shut 0) (act (check 0) (act (stop 0) (act started (act start s)))))))

abbrev IsRested : (ℕ → Stop) → Type 0
IsRested f = (f 0 ≡ idle) ⊎ (f 0 ≡ done)

cycle-Run :
    (f : ℕ → Stop) (k l : ℕ)
    → IsRested f
    → Run 1 quiet (at_main absent f k l false)
    → Run 1 quiet (cycle (at_main absent f k l false))
unfolding act
cycle-Run f k l rested r =
    after (clear 0)
      (after (join 0)
        (after finished
          (after (shut 0)
            (after (check 0)
              (after (stop 0) (after started (after start r refl) refl) (ground arith, rested))
              (ground arith, refl))
            (ground arith, refl))
          (refl, (0, ground arith, refl)))
        (ground arith, refl, ground arith, ground arith))
      (ground arith, refl)

cycles :
    (n : ℕ)
    → (f : ℕ → Stop) × (k : ℕ) × (l : ℕ) × (k ≡ n)
      × IsRested f
      × Run 1 quiet (at_main absent f k l false)
unfolding act quiet
cycles zero = (λ i. idle, 0, 0, refl, inl refl, here)
cycles (suc n) =
    let (f, k, l, counted, rested, r) = cycles n in
    (
      set (set (set (set (set f 0 checking) 0 stopping) 0 joining) 0 clearing) 0 done,
      k + 1,
      l + 1,
      omega (arith, counted),
      inr refl,
      cycle-Run f k l rested r,
    )

-- A server that was stopped is started again: for every number there is a run with so many starts, in which no
-- CHECK fails.
pub restarts : (n : ℕ) → (s : World) × Run 1 quiet s × (s.starts ≡ n) × (s.aborted ≡ false)
unfolding act quiet
restarts n =
    let (f, k, l, counted, rested, r) = cycles n in (at_main absent f k l false, r, counted, refl)
