-- ===== src/Common/Exceptions.antt =====
-- C++ exceptions as values: those that the program throws, with their text, the `out_of_range` of
-- `std::string`, a library's `std::system_error`, and `external` for any other that a library throws.
use Prim.Native.Nat.{ℕ}
use mathlib.Core.Path.{◌≡◌, refl}
use mathlib.Core.Logic.{◌⊎◌, inl, inr}
use mathlib.Core.List.{List, []}

pub data Exception : Type 0 where
  runtime_error : List ℕ → Exception
  invalid_argument : List ℕ → Exception
  out_of_range : Exception
  system_error : List ℕ → Exception
  external : List ℕ → Exception

-- `e.what()`. The text of `out_of_range` is the implementation's, and the program never shows it.
abbrev pub what : Exception → List ℕ
what (runtime_error text) = text
what (invalid_argument text) = text
what out_of_range = []
what (system_error text) = text
what (external text) = text

pub data Result {ℓ} (A : Type ℓ) : Type ℓ where
  ok : A → Result A
  err : Exception → Result A

infixl 5 ◌>>=◌ ◌>>◌
abbrev pub ◌>>=◌ {ℓ} : {A B : Type ℓ} → Result A → (A → Result B) → Result B
err thrown >>= rest = err thrown
ok value >>= rest = rest value

abbrev pub ◌>>◌ : {A : Type 0} → Result (Unit {0}) → Result A → Result A
first >> second = first >>= λ _. second

-- `try { … } catch (const std::exception&) { … }`
abbrev pub catch {ℓ} : {A : Type ℓ} → Result A → (Exception → A) → A
catch (ok a) handler = a
catch (err e) handler = handler e

-- `try { … } catch (const std::exception& e) { throw … }`
abbrev pub rethrow {ℓ} : {A : Type ℓ} → Result A → (Exception → Exception) → Result A
rethrow (ok a) handler = ok a
rethrow (err e) handler = err (handler e)

pub ok_inj {ℓ} : {A : Type ℓ} {a b : A} → ok a ≡ ok b → a ≡ b
ok_inj h = cc

pub Result-cases {ℓ} :
    {A : Type ℓ} (r : Result A) → ((a : A) × (r ≡ ok a)) ⊎ ((e : Exception) × (r ≡ err e))
Result-cases (ok a) = inl (a, refl)
Result-cases (err e) = inr (e, refl)
