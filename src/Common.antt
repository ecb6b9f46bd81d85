-- ===== src/Common.antt =====
-- The names that every other module shares: the libraries', passed on, and those of the children:
-- Boolean tests (Tests), measured lists (Lists), texts as byte lists (Bytes), exceptions (Exceptions),
-- signed integers (Int).
mod Tests
mod Lists
mod Bytes
mod Exceptions
mod Int
pub use Tests.*
pub use Lists.*
unfoldable pub use Bytes.*
pub use Exceptions.*
pub use Int.*
pub use Prim.Native.Nat.{ℕ, zero, suc, ◌+◌, ◌-◌, ◌*◌, ◌/◌, ◌%◌, ◌^◌, ◌≤◌, ◌<◌, min}
pub use mathlib.Core.Path.{◌≡◌, refl, sym, ap, subst, ◌∙◌, ◌≡⟨◌⟩◌, ◌∎}
pub use mathlib.Core.Logic.{◌≢◌, ◌↔◌, ◌⊎◌, inl, inr}
pub use mathlib.Core.Bool.{Bool, true, false, not, ◌&&◌, ◌||◌}
pub use mathlib.Core.Option.{Option, none, some}
pub use mathlib.Core.List.{List, [], ◌∷◌, ◌++◌, map, append-nil, append_assoc}
pub use native.Mathlib.Omega.{arith}
