-- ===== src/Notebook/Counters.antt =====
-- src/agent/notebook.ts: the counters after cells were loaded.
use mathlib.Core.Option
use jupyter_plugin_aitermina.Base.{
  ℕ, Text, Option, List, ◌≤◌, ◌≡◌, arith, All, some, ◌∷◌, ◌-◌, none, subst, ◌≢◌, [], ap, refl,
}
use jupyter_plugin_aitermina.Notebook.Runs.{
  max_cell, read_cell_number, restore_counters, max_with, read_cell_id,
}
use jupyter_plugin_aitermina.Protocol.{WorkspaceMode}
use jupyter_plugin_aitermina.Notebook.Ids.{BelowIf, Below, ids, cell_id-fresh}
use jupyter_plugin_aitermina.Notebook.{Notebook, WorkspaceCell, create_cell}
use jupyter_plugin_aitermina.Notebook.Rounding.{exact_limit, to_double, to_double-exact}

max_with-least : (k : ℕ) (o : Option ℕ) → k ≤ max_with k o
max_with-least k none = omega arith
max_with-least k (some j) = omega arith

max_cell-least : (k : ℕ) (cs : List WorkspaceCell) → k ≤ max_cell k cs
unfolding max_cell
max_cell-least k [] = omega arith
max_cell-least k (c ∷ cs) = omega (
  arith,
  max_with-least k (read_cell_number c.id),
  max_cell-least (max_with k (read_cell_number c.id)) cs,
)

Below_of_max_with : (k j : ℕ) (o : Option ℕ) → max_with k o ≤ j → BelowIf j o
Below_of_max_with k j none h = tt
Below_of_max_with k j (some i) h = omega (arith, h)

-- The double of the number of an id is at most `k`.
abbrev pub IsCounted : ℕ → Text → Type 0
IsCounted k s = BelowIf k (read_cell_number s)

pub max_cell-IsCounted :
    (k : ℕ) (cs : List WorkspaceCell) → All (IsCounted (max_cell k cs)) (ids cs)
unfolding max_cell
max_cell-IsCounted k [] = tt
max_cell-IsCounted k (c ∷ cs) = (
  Below_of_max_with k _ (read_cell_number c.id)
      (max_cell-least (max_with k (read_cell_number c.id)) cs),
  max_cell-IsCounted (max_with k (read_cell_number c.id)) cs,
)

-- An id with an exact number, or with none.
abbrev pub IsExact : Text → Type 0
IsExact = Below (exact_limit - 1)

exact_number : (o : Option ℕ) → BelowIf (exact_limit - 1) o → Option.map to_double o ≡ o
exact_number none h = refl
exact_number (some n) h = ap some (to_double-exact n h)

read_cell_number-exact : (s : Text) → IsExact s → read_cell_number s ≡ read_cell_id s
unfolding read_cell_number
read_cell_number-exact s h = exact_number (read_cell_id s) h

Below-counted : (k : ℕ) (ss : List Text) → All IsExact ss → All (IsCounted k) ss → All (Below k) ss
Below-counted k [] e h = tt
Below-counted k (s ∷ ss) (p, e) (q, h) =
    (subst (BelowIf k) (read_cell_number-exact s p) q, Below-counted k ss e h)

pub restore_counters-Below :
    (n : Notebook)
    → All IsExact (ids n.cells)
    → All (Below (restore_counters n.cells n).cell_counter) (ids n.cells)
unfolding restore_counters
restore_counters-Below n e =
    Below-counted (max_cell 0 n.cells) (ids n.cells) e (max_cell-IsCounted 0 n.cells)

-- When no id of the cells has a number from 2^53 on, the id of the next cell is that of none of them
-- after the counters are restored from the cells.
pub restore_counters-fresh :
    (kind : WorkspaceMode) (source : Text) (n : Notebook)
    → All IsExact (ids n.cells)
    → let m = restore_counters n.cells n in
      All (λ t. t ≢ (create_cell kind source m).1.id) (ids n.cells)
restore_counters-fresh kind source n e =
    cell_id-fresh (restore_counters n.cells n).cell_counter (ids n.cells)
      (restore_counters-Below n e)
