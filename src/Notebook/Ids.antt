-- ===== src/Notebook/Ids.antt =====
-- src/agent/notebook.ts: the ids of the cells, and what insertion and removal do to them.
use jupyter_plugin_aitermina.Base.{
  ℕ, List, Text, Option, text_eq, All, map, ◌++◌, arith, insert_at, remove_at, some, ◌∷◌, ◌≡◌, ◌≢◌,
  ◌+◌, read_decimal-decimal, subst, [], suc, ◌≤◌, none, ap, length, sym, zero, ◌∙◌, refl, Distinct,
}
use jupyter_plugin_aitermina.Notebook.Runs.{read_cell_id}
use jupyter_plugin_aitermina.Notebook.{WorkspaceCell, cell_id}

abbrev pub ids : List WorkspaceCell → List Text
ids = map λ (c : WorkspaceCell). c.id

abbrev pub BelowIf : ℕ → Option ℕ → Type 0
BelowIf k none = Unit
BelowIf k (some j) = j ≤ k

-- The number of an id of the form `cell-<number>` is at most `k`; another id is free.
abbrev pub Below : ℕ → Text → Type 0
Below k s = BelowIf k (read_cell_id s)

-- The id that is made from a number is read back as the number.
read_cell_id-cell_id : (n : ℕ) → read_cell_id (cell_id n) ≡ some n
unfolding read_cell_id text_eq
read_cell_id-cell_id n = read_decimal-decimal n

BelowIf-suc : (k : ℕ) (o : Option ℕ) → BelowIf k o → BelowIf (k + 1) o
BelowIf-suc k none h = tt
BelowIf-suc k (some j) h = omega arith

pub cell_id-Below : (k : ℕ) → Below k (cell_id k)
cell_id-Below k = rw (read_cell_id-cell_id k) (omega arith)

pub Below-suc : (k : ℕ) (ss : List Text) → All (Below k) ss → All (Below (k + 1)) ss
Below-suc k [] h = tt
Below-suc k (s ∷ ss) (p, h) = (BelowIf-suc k (read_cell_id s) p, Below-suc k ss h)

-- The next id is none of those whose numbers are at most the counter.
pub cell_id-fresh : (k : ℕ) (ss : List Text) → All (Below k) ss → All (λ t. t ≢ cell_id (k + 1)) ss
cell_id-fresh k [] h = tt
cell_id-fresh k (s ∷ ss) (p, h) = (
  λ e.
      absurd
        (omega (arith, subst (BelowIf k) (ap read_cell_id e ∙ read_cell_id-cell_id (k + 1)) p)),
  cell_id-fresh k ss h,
)

module _ {ℓ} {A : Type ℓ} where
  pub snoc-insert_at : (x : A) (xs : List A) → xs ++ x ∷ [] ≡ insert_at (length xs) x xs
  snoc-insert_at x [] = refl
  snoc-insert_at x (y ∷ xs) = ap (◌∷◌ y) (snoc-insert_at x xs)

module _ {ℓ κ} {A : Type ℓ} (P : A → Type κ) where
  pub All-insert_at : (i : ℕ) (x : A) (xs : List A) → P x → All P xs → All P (insert_at i x xs)
  All-insert_at zero x xs p h = (p, h)
  All-insert_at (suc i) x [] p h = (p, tt)
  All-insert_at (suc i) x (y ∷ xs) p (q, h) = (q, All-insert_at i x xs p h)

  pub All-remove_at : (i : ℕ) (xs : List A) → All P xs → All P (remove_at i xs)
  All-remove_at i [] h = tt
  All-remove_at zero (x ∷ xs) (p, h) = h
  All-remove_at (suc i) (x ∷ xs) (p, h) = (p, All-remove_at i xs h)

module _ {ℓ κ} {A : Type ℓ} {B : Type κ} (f : A → B) where
  pub map-insert_at :
      (i : ℕ) (x : A) (xs : List A) → map f (insert_at i x xs) ≡ insert_at i (f x) (map f xs)
  map-insert_at zero x xs = refl
  map-insert_at (suc i) x [] = refl
  map-insert_at (suc i) x (y ∷ xs) = ap (◌∷◌ (f y)) (map-insert_at i x xs)

  pub map-remove_at : (i : ℕ) (xs : List A) → map f (remove_at i xs) ≡ remove_at i (map f xs)
  map-remove_at i [] = refl
  map-remove_at zero (x ∷ xs) = refl
  map-remove_at (suc i) (x ∷ xs) = ap (◌∷◌ (f x)) (map-remove_at i xs)

pub Distinct-insert_at :
    (i : ℕ) (s : Text) (ss : List Text)
    → Distinct ss
    → All (λ t. t ≢ s) ss
    → Distinct (insert_at i s ss)
Distinct-insert_at zero s ss d h = (h, d)
Distinct-insert_at (suc i) s [] d h = (tt, tt)
Distinct-insert_at (suc i) s (t ∷ ss) (a, d) (n, h) =
    (All-insert_at (λ u. u ≢ t) i s ss (λ e. n (sym e)) a, Distinct-insert_at i s ss d h)

pub Distinct-remove_at : (i : ℕ) (ss : List Text) → Distinct ss → Distinct (remove_at i ss)
Distinct-remove_at i [] d = tt
Distinct-remove_at zero (s ∷ ss) (a, d) = d
Distinct-remove_at (suc i) (s ∷ ss) (a, d) =
    (All-remove_at (λ u. u ≢ s) i ss a, Distinct-remove_at i ss d)
