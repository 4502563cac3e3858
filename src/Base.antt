-- ===== src/Base.antt =====
-- Names that every module shares: the libraries', passed on, and those of the children
-- (tests on numbers, lists, results of C code, C strings).
mod Tests
mod Lists
mod Results
mod Text
mod Double
pub use Tests.*
pub use Lists.*
pub use Results.*
unfoldable pub use Text.{equal, all_upper, to_upper, to_lower, split_at, is_prefix, atoi}
pub use Text.{snprintf, Bytes, codes, equal_iff, equal_refl, ℤ, pos, negsuc}
pub use Double.*
pub use Prim.Native.Nat.{ℕ, zero, suc, ◌+◌, ◌-◌, ◌*◌, ◌/◌, ◌%◌, ◌^◌, ◌≤◌, ◌<◌, min}
pub use mathlib.Core.Path.{◌≡◌, refl, sym, ap, ◌∙◌}
pub use mathlib.Core.Logic.{◌≢◌, ◌↔◌, ◌⊎◌, inl, inr}
pub use mathlib.Core.Bool.{Bool, true, false, not, ◌&&◌, ◌||◌}
pub use mathlib.Core.Option.{Option, none, some}
pub use mathlib.Core.List.{List, [], ◌∷◌, ◌++◌, map, append-nil, append_assoc}
pub use native.Mathlib.Omega.{arith}
