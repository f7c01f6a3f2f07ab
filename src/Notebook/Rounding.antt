-- ===== src/Notebook/Rounding.antt =====
-- src/agent/notebook.ts: what Number makes of the digits of an id, which restoreCounters reads.
use Prim.Native.Nat.{◌/◌, ◌%◌, ◌^◌}
use jupyter_plugin_aitermina.Base.{
  ℕ, true, false, zero, ◌*◌, ◌||◌, ◌==◌, ◌&&◌, ◌+◌, Bool-cases, refl, inl, inr,
}
-- The whole numbers below this one are doubles, each for itself.
use jupyter_plugin_aitermina.Base.{ℕ, suc, if◌then◌else◌, ◌≤◌, ltb, ◌-◌, ◌≡◌, arith}

abbrev pub exact_limit : ℕ
exact_limit = 2 ^ 53

-- How often a number is halved until it is below the limit; finite doubles need at most 971 times.
unfoldable pub halvings : ℕ → ℕ → ℕ
halvings zero n = 0
halvings (suc fuel) n = elim (ltb n exact_limit) [ true ↦ 0 | false ↦ suc (halvings fuel (n / 2)) ]

-- The nearest multiple of a unit, and of two that are equally near the even one.
abbrev pub round_to : ℕ → ℕ → ℕ
round_to unit n =
    let q = n / unit in
    let twice = 2 * (n % unit) in
    if ltb unit twice || (twice == unit && q % 2 == 1) then (q + 1) * unit else q * unit

-- `Number` of the digits of a number. `Infinity` stands as a number past all finite doubles.
unfoldable pub to_double : ℕ → ℕ
unfolding halvings
to_double n = if ltb n exact_limit then n else round_to (2 ^ halvings 972 n) n

below_limit : (n : ℕ) → n ≤ exact_limit - 1 → ltb n exact_limit ≡ true
below_limit n h = elim (Bool-cases (ltb n exact_limit)) [ inl e ↦ e | inr e ↦ ground arith ]

pub to_double-exact : (n : ℕ) → n ≤ exact_limit - 1 → to_double n ≡ n
unfolding to_double
to_double-exact n h = rw (below_limit n h) refl
