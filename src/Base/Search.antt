-- ===== src/Base/Search.antt =====
-- `indexOf` and `lastIndexOf` of the source's strings, for one code unit.
use jupyter_plugin_aitermina.Base.Tests.{◌==◌, if◌then◌else◌}
use jupyter_plugin_aitermina.Base.Strings.{Text}
use jupyter_plugin_aitermina.Base.Lists.{drop}
use Prim.Native.Nat.{ℕ, zero, suc, ◌+◌}
use mathlib.Core.List.{[], ◌∷◌}
use mathlib.Core.Option.{Option, none, some}
use mathlib.Core.Option

-- `s.indexOf(c)`; `none` stands for -1.
unfoldable pub index_of : ℕ → Text → Option ℕ
index_of c [] = none
index_of c (x ∷ s) =
    let rest = Option.map (λ (i : ℕ). i + 1) (index_of c s) in if x == c then some 0 else rest

-- `s.indexOf(c, from)`
unfoldable pub index_of_from : ℕ → Text → ℕ → Option ℕ
unfolding index_of
index_of_from c s from = Option.map (λ (i : ℕ). from + i) (index_of c (drop from s))

-- `s.lastIndexOf(c, from)`: the last index at or below `from`.
unfoldable pub last_index_of : ℕ → Text → ℕ → Option ℕ
last_index_of c [] from = none
last_index_of c (x ∷ s) zero = if x == c then some 0 else none
last_index_of c (x ∷ s) (suc from) = elim (last_index_of c s from) [
  | some i ↦ some (i + 1)
  | none ↦ if x == c then some 0 else none
]
