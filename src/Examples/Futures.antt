-- ===== src/Examples/Futures.antt =====
-- The sample futures, and a request that is answered by them.
use nozomi.Common.{
  ℕ, ◌≡◌, refl, sym, subst, ◌⊎◌, inl, inr, ltb, Bool-cases, Exception, Result, ok, err,
}
use nozomi.Libs.Sample.{
  sample, SampleFuture, settles, never, later, run, recover, expire, milliseconds,
}
use nozomi.Libs.Futures.{FutureLaws, CallYields}

abbrev pub Yields : (A : Type 0) → SampleFuture A → Result A → Type 0
Yields A (settles t r) s = s ≡ r
Yields A never s = ⊥

later-Yields :
    (A : Type 0) (d : ℕ) (f : SampleFuture A) (r : Result A) → Yields A (later d f) r → Yields A f r
later-Yields A d (settles t s) r y = y
later-Yields A d never r y = y

Yields-later :
    (A : Type 0) (d : ℕ) (f : SampleFuture A) (r : Result A) → Yields A f r → Yields A (later d f) r
Yields-later A d (settles t s) r y = y
Yields-later A d never r y = y

run-Yields :
    (A : Type 0) (d : ℕ) (c : Result (SampleFuture A)) (r : Result A)
    → Yields A (run d c) r
    → CallYields sample Yields A c r
run-Yields A d (ok f) r y = later-Yields A d f r y
run-Yields A d (err e) r y = y

Yields-run :
    (A : Type 0) (d : ℕ) (c : Result (SampleFuture A)) (r : Result A)
    → CallYields sample Yields A c r
    → Yields A (run d c) r
Yields-run A d (ok f) r y = Yields-later A d f r y
Yields-run A d (err e) r y = y

recover-Yields :
    (A : Type 0) (f : SampleFuture A) (h : Exception → Result (SampleFuture A)) (r : Result A)
    → Yields A (recover f h) r
    → ((a : A) × Yields A f (ok a) × (r ≡ ok a))
      ⊎ ((e : Exception) × Yields A f (err e) × CallYields sample Yields A (h e) r)
recover-Yields A (settles t (ok a)) h r y = inl (a, refl, y)
recover-Yields A (settles t (err e)) h r y = inr (e, refl, run-Yields A t (h e) r y)
recover-Yields A never h r y = absurd y

Yields-recover_ok :
    (A : Type 0) (f : SampleFuture A) (h : Exception → Result (SampleFuture A)) (a : A)
    → Yields A f (ok a)
    → Yields A (recover f h) (ok a)
Yields-recover_ok A (settles t (ok b)) h a y = y
Yields-recover_ok A (settles t (err e)) h a y = cc
Yields-recover_ok A never h a y = y

err_inj : {A : Type 0} {d e : Exception} {r : Result A} → r ≡ err d → r ≡ err e → d ≡ e
err_inj h i = cc

Yields-recover_err :
    (A : Type 0) (f : SampleFuture A) (h : Exception → Result (SampleFuture A)) (e : Exception)
    (r : Result A)
    → Yields A f (err e)
    → CallYields sample Yields A (h e) r
    → Yields A (recover f h) r
Yields-recover_err A (settles t (ok b)) h e r y z = cc
Yields-recover_err A (settles t (err d)) h e r y z =
    Yields-run A t (h d) r
      (subst (λ x. CallYields sample Yields A (h x) r) (sym (err_inj refl (sym y))) z)
Yields-recover_err A never h e r y z = absurd y

expire-Yields :
    (A : Type 0) (f : SampleFuture A) (limit : ℕ) (h : Unit {0} → Result (SampleFuture A))
    (r : Result A)
    → Yields A (expire f limit h) r
    → Yields A f r ⊎ CallYields sample Yields A (h tt) r
expire-Yields A (settles t s) limit h r y = elim (Bool-cases (ltb t limit)) [
  | inl e ↦ inl (rw (e, expire) at y)
  | inr e ↦ inr (run-Yields A limit (h tt) r (rw (e, expire) at y))
]
expire-Yields A never limit h r y = inr (run-Yields A limit (h tt) r y)

Yields-expire :
    (A : Type 0) (f : SampleFuture A) (limit : ℕ) (h : Unit {0} → Result (SampleFuture A))
    (r : Result A)
    → CallYields sample Yields A (h tt) r
    → (s : Result A) × Yields A (expire f limit h) s
Yields-expire A (settles t s) limit h r y = elim (Bool-cases (ltb t limit)) [
  | inl e ↦ (s, rw (e, expire) refl)
  | inr e ↦ (r, rw (e, expire) (Yields-run A limit (h tt) r y))
]
Yields-expire A never limit h r y = (r, Yields-run A limit (h tt) r y)

pub sample_futures : FutureLaws sample Yields
sample_futures = record {
  yields-make_future = λ A a. refl;
  make_future-yields = λ A a r y. y;
  via-yields = λ A ex f r y. run-Yields A ex (f tt) r y;
  on_error-yields = λ A f h r y. recover-Yields A f h r y;
  yields-on_error_ok = λ A f h a y. Yields-recover_ok A f h a y;
  yields-on_error_err = λ A f h e r y z. Yields-recover_err A f h e r y z;
  on_timeout-yields = λ A f ms h r y. expire-Yields A f (milliseconds ms) h r y;
  yields-on_timeout = λ A f ms h r y. Yields-expire A f (milliseconds ms) h r y;
}
