-- ===== src/Base.antt =====
-- Names shared by every module of the development: the libraries' names passed on, Boolean tests
-- on the native numbers, lists, texts, results and association maps.
pub mod Bools
pub mod Ints
pub mod Lists
pub mod Chars
pub mod Outcome
pub mod Maps
unfoldable pub use Bools.*
unfoldable pub use Ints.*
unfoldable pub use Lists.*
unfoldable pub use Chars.*
unfoldable pub use Outcome.*
unfoldable pub use Maps.*
pub use Prim.Native.Nat.{
  ℕ, zero, suc, ◌+◌, ◌-◌, ◌*◌, ◌/◌, ◌%◌, ◌^◌, ◌≤◌, ◌<◌, min, max, compare, Ordering,
}
pub use Prim.Native.String.{String}
pub use mathlib.Core.Path.{◌≡◌, refl, sym, ap, ◌∙◌, subst, fun_ext}
pub use mathlib.Core.Logic.{◌≢◌, ◌↔◌, ◌⊎◌, inl, inr}
pub use mathlib.Core.Bool.{Bool, true, false, false≢true, not, ◌&&◌, ◌||◌}
pub use mathlib.Core.Option.{Option, none, some, some-injective}
pub use mathlib.Core.List.{
  List, [], ◌∷◌, ◌++◌, map, reverse, append-nil, append_assoc, reverse-append, reverse-reverse,
  map-append, append_cancel_left, append_cancel_right, Perm,
}
pub use native.Mathlib.Nat.{mod-eq_of_lt, mod-lt, le_trans, add_comm, add_assoc}
pub use native.Mathlib.Omega.{arith}
