-- ===== src/Server/Early.antt =====
-- A call of `stop` on a server that does not serve yet, or could not start.
use nozomi.Common.{◌≡◌, refl, ◌↔◌, ◌⊎◌, inl, inr, arith}
use nozomi.Server.Threads.{
  Main, absent, starting, serving, ended, joined, checking, astray, World, quiet, Action, check,
  shut, act, Permits, Run,
}
use nozomi.Server.Safety.{IsCall, Inv, Run-Inv, IsReady, act-IsReady, act-Inv}

-- The threads go on, without a call of `start` or `stop`.
pub data Steps (s : World) : World → Type 0 where
  stay : Steps s s
  go : {t : World} (a : Action) → Steps s t → Permits 1 t a → ¬ IsCall a → Steps s (act a t)

Steps-IsReady : (s : World) → Inv s → IsReady s → (t : World) → Steps s t → Inv t × IsReady t
Steps-IsReady s i r _ stay = (i, r)
Steps-IsReady s i r _ (go {t = t} a steps h n) =
    let (i', r') = Steps-IsReady s i r t steps in (act-Inv a t h i', act-IsReady a t i' h n r')

-- In some continuation HTTPServer::stop is called on a server that does not serve.
abbrev pub GoesAstray : World → Type 0
GoesAstray s = (t : World) × Steps s t × (t.stops 0 ≡ astray)

straight :
    (s : World) → s.stops 0 ≡ checking → (s.main ≡ starting) ⊎ (s.main ≡ ended) → GoesAstray s
unfolding act
straight s e h = (
  act (shut 0) (act (check 0) s),
  go (shut 0) (go (check 0) stay (ground arith, e) (λ c. c)) (ground arith, ground arith) (λ c. c),
  ground arith,
)

Main-cases : (m : Main) → (m ≡ absent) ⊎ (m ≡ starting) ⊎ (m ≡ serving) ⊎ (m ≡ ended) ⊎ (m ≡ joined)
Main-cases absent = inl refl
Main-cases starting = inr (inl refl)
Main-cases serving = inr (inr (inl refl))
Main-cases ended = inr (inr (inr (inl refl)))
Main-cases joined = inr (inr (inr (inr refl)))

IsReady-of_main :
    (s : World) → s.stops 0 ≡ checking → (s.main ≡ serving) ⊎ (s.main ≡ absent) → IsReady s
IsReady-of_main s e h = record { kept = λ a. cc (e, a); found = λ _. h; serves = λ a. cc (e, a) }

never : (s : World) → Inv s → IsReady s → ¬ GoesAstray s
never s i r (t, steps, lost) = let (_, r') = Steps-IsReady s i r t steps in r'.kept lost

-- When no two calls of `stop` overlap, one that has just been made calls HTTPServer::stop on a server
-- that does not serve, in some order of the steps of the threads, exactly when the server is still
-- starting or could not start.
pub GoesAstray-iff :
    (s : World)
    → Run 1 quiet s
    → s.stops 0 ≡ checking
    → GoesAstray s ↔ ((s.main ≡ starting) ⊎ (s.main ≡ ended))
GoesAstray-iff s r e =
    let i = Run-Inv s r in
    (
      λ lost. elim (Main-cases s.main) [
        | inl m ↦ absurd (never s i (IsReady-of_main s e (inr m)) lost)
        | inr (inl m) ↦ inl m
        | inr (inr (inl m)) ↦ absurd (never s i (IsReady-of_main s e (inl m)) lost)
        | inr (inr (inr (inl m))) ↦ inr m
        | inr (inr (inr (inr m))) ↦ cc (e, i.joined_once.0 m)
      ],
      λ h. straight s e h,
    )
