-- ===== src/Prelude.antt =====
-- The names that the other modules share: the libraries', passed on, and those of the children.
mod Tests
mod Lists
mod Bytes
mod Sizes
mod Options
pub mod Dict
pub mod Int
pub use Tests.*
pub use Lists.*
pub use Options.{◌>>=◌}
pub use Bytes.{Text, codes, has, text_eq_refl, eq_of_text_eq, text_eq_iff}
unfoldable pub use Bytes.{text_eq, text_lt}
pub use Sizes.{size_mod, add_size_exact, sub_size_exact}
unfoldable pub use Sizes.{add_size, sub_size}
pub use Prim.Native.Nat.{ℕ, zero, suc, ◌+◌, ◌-◌, ◌*◌, ◌/◌, ◌%◌, ◌^◌, ◌≤◌, ◌<◌, min}
pub use mathlib.Core.Path.{◌≡◌, refl, sym, ap, ap₂, ◌∙◌, subst, fun_ext}
pub use mathlib.Core.Logic.{◌≢◌, ◌↔◌, ◌⊎◌, inl, inr}
pub use mathlib.Core.Bool.{Bool, true, false, not, ◌&&◌, ◌||◌}
pub use mathlib.Core.Option.{Option, none, some}
pub use mathlib.Core.List.{List, [], ◌∷◌, ◌++◌, map, append-nil, append_assoc}
pub use native.Mathlib.Omega.{arith}
