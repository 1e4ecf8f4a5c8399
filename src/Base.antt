-- ===== src/Base.antt =====
-- Names, tests and list lemmas that the components share.
mod Tests
mod Lists
mod Arrays
mod Count
mod Assoc
mod Int
mod Runs
pub use Tests.*
pub use Lists.*
pub use Arrays.*
pub use Count.*
pub use Assoc.{find-nil, find-put, find-drop_key, put-found}
unfoldable pub use Assoc.{find, put, drop_key}
pub use Runs.{Inevitable, reached, ahead}
pub use Int.{ℤ, pos, negsuc, pos_part, neg_part, sub_ℕ, ltb_ℤ}
unfoldable pub use Int.{◌+ℤ◌}
pub use Prim.Native.Nat.{ℕ, zero, suc, ◌+◌, ◌-◌, ◌*◌, ◌/◌, ◌%◌, ◌^◌, ◌≤◌, ◌<◌}
pub use Prim.Native.String.{String}
pub use mathlib.Core.Path.{◌≡◌, refl, sym, ap, ◌∙◌}
pub use mathlib.Core.Logic.{◌≢◌, ◌↔◌, ◌⊎◌, inl, inr}
pub use mathlib.Core.Bool.{Bool, true, false, ◌&&◌, ◌||◌, not}
pub use mathlib.Core.Option.{Option, none, some}
pub use mathlib.Core.List.{List, [], ◌∷◌, ◌++◌, map, append-nil, append_assoc, Perm}
pub use native.Mathlib.Omega.{arith}
