-- ===== src/Libs/Futures.antt =====
-- Documented behaviour of folly's futures, in terms of the result that a future completes with.
use nozomi.Common.{◌≡◌, ◌⊎◌, Exception, Result, ok, err, ℤ}
use nozomi.Libs.{Libs}

module _ (L : Libs) (Yields : (A : Type 0) → L.Future A → Result A → Type 0) where
  -- What the future of a callback completes with; a callback that throws counts as one that failed.
  abbrev pub CallYields : (A : Type 0) → Result (L.Future A) → Result A → Type 0
  CallYields A (ok f) r = Yields A f r
  CallYields A (err e) r = r ≡ err e

  -- `onError` passes a value on and calls its callback on an exception. `onTimeout` completes as the
  -- future does or as its callback does, and is sure to complete when the callback's future is.
  pub record FutureLaws : Type 1 where
    pub yields-make_future : (A : Type 0) (a : A) → Yields A (L.make_future A a) (ok a)
    pub make_future-yields :
        (A : Type 0) (a : A) (r : Result A) → Yields A (L.make_future A a) r → r ≡ ok a
    pub via-yields :
        (A : Type 0) (ex : L.Executor) (f : Unit {0} → Result (L.Future A)) (r : Result A)
        → Yields A (L.via A ex f) r
        → CallYields A (f tt) r
    pub on_error-yields :
        (A : Type 0) (f : L.Future A) (h : Exception → Result (L.Future A)) (r : Result A)
        → Yields A (L.on_error A f h) r
        → ((a : A) × Yields A f (ok a) × (r ≡ ok a))
          ⊎ ((e : Exception) × Yields A f (err e) × CallYields A (h e) r)
    pub yields-on_error_ok :
        (A : Type 0) (f : L.Future A) (h : Exception → Result (L.Future A)) (a : A)
        → Yields A f (ok a)
        → Yields A (L.on_error A f h) (ok a)
    pub yields-on_error_err :
        (A : Type 0) (f : L.Future A) (h : Exception → Result (L.Future A)) (e : Exception)
        (r : Result A)
        → Yields A f (err e)
        → CallYields A (h e) r
        → Yields A (L.on_error A f h) r
    pub on_timeout-yields :
        (A : Type 0) (f : L.Future A) (ms : ℤ) (h : Unit {0} → Result (L.Future A)) (r : Result A)
        → Yields A (L.on_timeout A f ms h) r
        → Yields A f r ⊎ CallYields A (h tt) r
    pub yields-on_timeout :
        (A : Type 0) (f : L.Future A) (ms : ℤ) (h : Unit {0} → Result (L.Future A)) (r : Result A)
        → CallYields A (h tt) r
        → (s : Result A) × Yields A (L.on_timeout A f ms h) s
