-- ===== src/Base/HashMap.antt =====
-- `std::collections::HashMap` with numbers for keys. The code looks up, inserts and removes, and
-- never iterates over a map, so a map is its lookup function.
use Prim.Native.Nat.{ℕ}
use mathlib.Core.Option.{Option, none, some}
use soros.Base.Tests.{◌==◌, if◌then◌else◌, is_some}
use mathlib.Core.Bool.{Bool}

abbrev pub HashMap : Type 0 → Type 0
HashMap V = ℕ → Option V

module _ {V : Type 0} where
  abbrev pub empty : HashMap V
  empty j = none

  abbrev pub contains_key : ℕ → HashMap V → Bool
  contains_key k m = is_some (m k)

  abbrev pub insert : ℕ → V → HashMap V → HashMap V
  insert k v m j = if k == j then some v else m j

  abbrev pub remove : ℕ → HashMap V → HashMap V
  remove k m j = if k == j then none else m j
