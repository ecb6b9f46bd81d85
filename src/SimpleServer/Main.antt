-- ===== src/SimpleServer/Main.antt =====
-- The rest of `main` in examples/simple_server.cpp: it starts the server, waits for a key, and stops the
-- server, while the threads of the server run.
pub mod Sound
pub mod Ends
use nozomi.Common.{◌≡◌}
use nozomi.Server.Threads.{
  Main, absent, starting, serving, ended, joined, Stop, done, World, quiet, Action, start, stop,
  act,
}
use nozomi.Server.Threads
use nozomi.Server.Safety.{IsCall}

-- Where `main` stands; `thrown` when `get` has thrown what the server could not start with.
pub data Point : Type 0 where
  begin awaiting_start awaiting_key awaiting_stop returned thrown : Point

pub record State : Type 0 where
  pub point : Point
  pub world : World

unfoldable pub launched : State
launched = record { point = begin; world = quiet }

-- A step of `main`, or of another thread.
pub data Event : Type 0 where
  start_server got_start key_pressed got_stop : Event
  thread : Action → Event

-- `start().get()` returns or throws once the promise is settled.
abbrev pub after_start : Main → Point
after_start absent = awaiting_start
after_start starting = awaiting_start
after_start serving = awaiting_key
after_start ended = thrown
after_start joined = awaiting_start

unfoldable pub advance : Event → State → State
advance start_server s = record { point = awaiting_start; world = act start s.world }
advance got_start s = record s { point = after_start s.world.main }
advance key_pressed s = record { point = awaiting_stop; world = act (stop 0) s.world }
advance got_stop s = record s { point = returned }
advance (thread a) s = record s { world = act a s.world }

-- The future of `start` is ready.
abbrev pub IsSettled : Main → Type 0
IsSettled absent = ⊥
IsSettled starting = ⊥
IsSettled _ = Unit

-- The process ends with `main`.
abbrev pub IsLive : Point → Type 0
IsLive returned = ⊥
IsLive thrown = ⊥
IsLive _ = Unit

-- When a step may be taken: `getchar` returns at some time, and a future is ready when its promise is
-- settled.
abbrev pub Permits : Event → State → Type 0
Permits start_server s = s.point ≡ begin
Permits got_start s = (s.point ≡ awaiting_start) × IsSettled s.world.main
Permits key_pressed s = s.point ≡ awaiting_key
Permits got_stop s = (s.point ≡ awaiting_stop) × (s.world.stops 0 ≡ done)
Permits (thread a) s = IsLive s.point × ¬ IsCall a × Threads.Permits 1 s.world a

pub data Execution : State → Type 0 where
  first : Execution launched
  next : {s : State} (e : Event) → Execution s → Permits e s → Execution (advance e s)
