-- ===== src/Server/Threads.antt =====
-- The threads of a server: the main thread that `start` makes, and one for each call of `stop`,
-- interleaved. Each access of a thread to the shared state is one step.
use nozomi.Common.{ℕ, ◌+◌, ◌<◌, ◌≡◌, ◌≢◌, ◌⊎◌, Bool, true, false, ◌==◌, if◌then◌else◌}

-- `mainThread_`: empty, or a thread that starts the server, serves, has ended, or was joined.
pub data Main : Type 0 where
  absent starting serving ended joined : Main

-- Where a thread of `stop` stands; `done` when its promise is fulfilled, and `astray` when it has called
-- HTTPServer::stop on a server that does not serve. Documented is only the call on a server that does:
-- no step of the thread is modelled after another.
pub data Stop : Type 0 where
  idle checking stopping joining clearing done astray : Stop

-- `aborted` once a CHECK fails, or an exception leaves a thread; `starts` counts the calls of `start`,
-- each of which returned the future of a promise, and `settled` those whose promise has a value or an
-- exception.
pub record World : Type 0 where
  pub main : Main
  pub stops : ℕ → Stop
  pub starts : ℕ
  pub settled : ℕ
  pub aborted : Bool

unfoldable pub quiet : World
quiet = record { main = absent; stops = λ i. idle; starts = 0; settled = 0; aborted = false }

abbrev pub set : (ℕ → Stop) → ℕ → Stop → ℕ → Stop
set f i p j = if i == j then p else f j

pub data Action : Type 0 where
  start started failed finished : Action
  stop check shut join clear : ℕ → Action

-- `CHECK(!mainThread_)`, then the assignment of the thread.
abbrev start_main : Main → World → World
start_main absent s = record s { main = starting; starts = s.starts + 1 }
start_main _ s = record s { aborted = true }

abbrev check_main : ℕ → Main → World → World
check_main i absent s = record s { stops = set s.stops i done }
check_main i _ s = record s { stops = set s.stops i stopping }

-- `server_.stop()`
abbrev stop_server : ℕ → Main → World → World
stop_server i serving s = record s { stops = set s.stops i joining }
stop_server i absent s = record s { stops = set s.stops i astray }
stop_server i starting s = record s { stops = set s.stops i astray }
stop_server i ended s = record s { stops = set s.stops i astray }
stop_server i joined s = record s { stops = set s.stops i astray }

-- `mainThread_->join()`: an empty optional and a thread that was joined throw.
abbrev join_main : ℕ → Main → World → World
join_main i ended s = record s { main = joined; stops = set s.stops i clearing }
join_main i absent s = record s { aborted = true }
join_main i joined s = record s { aborted = true }
join_main i starting s = s
join_main i serving s = s

-- `mainThread_.clear()`: a thread that was not joined terminates the program.
abbrev clear_main : ℕ → Main → World → World
clear_main i absent s = record s { stops = set s.stops i done }
clear_main i joined s = record s { main = absent; stops = set s.stops i done }
clear_main i starting s = record s { aborted = true }
clear_main i serving s = record s { aborted = true }
clear_main i ended s = record s { aborted = true }

unfoldable pub act : Action → World → World
act start s = start_main s.main s
act started s = record s { main = serving; settled = s.settled + 1 }
act failed s = record s { main = ended; settled = s.settled + 1 }
act finished s = record s { main = ended }
act (stop i) s = record s { stops = set s.stops i checking }
act (check i) s = check_main i s.main s
act (shut i) s = stop_server i s.main s
act (join i) s = join_main i s.main s
act (clear i) s = clear_main i s.main s

-- When an action may happen, with stop threads below `n`. The main thread ends when it cannot start, or
-- once a thread of `stop` has stopped the server that served; `join` waits for the main thread to end.
abbrev pub Permits : ℕ → World → Action → Type 0
Permits n s start = s.main ≡ absent
Permits n s started = s.main ≡ starting
Permits n s failed = s.main ≡ starting
Permits n s finished = (s.main ≡ serving) × ((i : ℕ) × (i < n) × (s.stops i ≡ joining))
Permits n s (stop i) = (i < n) × ((s.stops i ≡ idle) ⊎ (s.stops i ≡ done))
Permits n s (check i) = (i < n) × (s.stops i ≡ checking)
Permits n s (shut i) = (i < n) × (s.stops i ≡ stopping)
Permits n s (join i) = (i < n) × (s.stops i ≡ joining) × (s.main ≢ starting) × (s.main ≢ serving)
Permits n s (clear i) = (i < n) × (s.stops i ≡ clearing)

pub data Run (n : ℕ) (s : World) : World → Type 0 where
  here : Run n s s
  after : {t : World} (a : Action) → Run n s t → Permits n t a → Run n s (act a t)
