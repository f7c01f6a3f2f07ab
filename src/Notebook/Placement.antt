-- ===== src/Notebook/Placement.antt =====
-- src/agent/notebook.ts: the selected index stays within the cells and the ids of the cells stay
-- distinct and numbered by the counter.
use jupyter_plugin_aitermina.Base.{
  ℕ, List, arith, Bool-cases, get_elem?, Option-cases, Text, ◌≤◌, ◌≡◌, if◌then◌else◌, length, some,
  remove_at, last?, inl, ◌+◌, length-map, insert_at, inr, ◌-◌, ◌<◌, ◌==◌, ap, [], truthy, ltb, ◌∷◌,
  All, subst, trim, sym, suc, ◌∙◌, ◌++◌, length-append, zero, length-insert_at, refl, Distinct,
}
use jupyter_plugin_aitermina.Notebook.{Notebook, fresh_cell, is_empty, runs_cell, WorkspaceCell}
use jupyter_plugin_aitermina.Notebook.Cells.{
  select, append_cell, insert_above, insert_below, prepare_retry, cancel_queued_runs, delete_active,
  ensure_trailing_input, advance_after_run, is_blank_input, remove_active,
}
use jupyter_plugin_aitermina.Protocol.{WorkspaceMode, ai}
use jupyter_plugin_aitermina.Notebook.Ids.{
  ids, snoc-insert_at, Below, map-insert_at, map-remove_at, Distinct-remove_at, Distinct-insert_at,
  All-remove_at, cell_id-fresh, All-insert_at, cell_id-Below, Below-suc,
}
use jupyter_plugin_aitermina.Notebook.Updates.{update_cell-ids}

pub record IsPlaced (n : Notebook) : Type 0 where
  pub in_range : n.active ≤ length n.cells - 1
  pub distinct : Distinct (ids n.cells)
  pub below : All (Below n.cell_counter) (ids n.cells)

-- The same cells by their ids, the same selection, the same counter.
pub SamePlaces-IsPlaced :
    (m n : Notebook)
    → m.active ≡ n.active
    → m.cell_counter ≡ n.cell_counter
    → ids m.cells ≡ ids n.cells
    → IsPlaced n
    → IsPlaced m
SamePlaces-IsPlaced m n a k e v = record {
  in_range = omega (
    arith,
    a,
    v.in_range,
    length-map (λ (c : WorkspaceCell). c.id) m.cells,
    length-map (λ (c : WorkspaceCell). c.id) n.cells,
    ap length e,
  );
  distinct = subst Distinct (sym e) v.distinct;
  below =
      subst (λ s. All (Below m.cell_counter) s) (sym e)
        (subst (λ j. All (Below j) (ids n.cells)) (sym k) v.below);
}

-- A new cell at any place.
insert-IsPlaced :
    (i active : ℕ) (kind : WorkspaceMode) (source : Text) (n m : Notebook)
    → IsPlaced n
    → active ≤ length n.cells
    → m.active ≡ active
    → m.cell_counter ≡ n.cell_counter + 1
    → m.cells ≡ insert_at i (fresh_cell (n.cell_counter + 1) kind source) n.cells
    → IsPlaced m
insert-IsPlaced i active kind source n m v h a k e =
    let c = fresh_cell (n.cell_counter + 1) kind source in
    let same : ids m.cells ≡ insert_at i c.id (ids n.cells) =
      ap ids e ∙ map-insert_at (λ (d : WorkspaceCell). d.id) i c n.cells in
    record {
      in_range = omega (arith, a, h, ap length e, length-insert_at i c n.cells);
      distinct = subst Distinct (sym same) (
          Distinct-insert_at i c.id (ids n.cells) v.distinct
            (cell_id-fresh n.cell_counter (ids n.cells) v.below));
      below =
          subst (λ s. All (Below m.cell_counter) s) (sym same)
            (subst (λ j. All (Below j) (insert_at i c.id (ids n.cells))) (sym k)
              (All-insert_at (Below (n.cell_counter + 1)) i c.id (ids n.cells)
                (cell_id-Below (n.cell_counter + 1))
                (Below-suc n.cell_counter (ids n.cells) v.below)));
    }

pub select-IsPlaced : (i : ℕ) (n : Notebook) → IsPlaced n → IsPlaced (select i n)
unfolding select
select-IsPlaced i n v = ground arith

pub append_cell-IsPlaced : (n : Notebook) → IsPlaced n → IsPlaced (append_cell n).0
unfolding append_cell
append_cell-IsPlaced n v =
    let c = fresh_cell (n.cell_counter + 1) ai [] in
    insert-IsPlaced (length n.cells) (length (n.cells ++ c ∷ []) - 1) ai [] n _ v
      (omega (arith, length-append n.cells (c ∷ []))) refl refl (snoc-insert_at c n.cells)

pub insert_above-IsPlaced : (n : Notebook) → IsPlaced n → IsPlaced (insert_above n).0
unfolding insert_above
insert_above-IsPlaced n v = elim (Bool-cases (is_empty n)) [
  | inl e ↦ rw e (append_cell-IsPlaced n v)
  | inr e ↦ rw e (insert-IsPlaced n.active n.active ai [] n _ v (ground arith) refl refl refl)
]

pub insert_below-IsPlaced : (n : Notebook) → IsPlaced n → IsPlaced (insert_below n).0
unfolding insert_below
insert_below-IsPlaced n v = elim (Bool-cases (is_empty n)) [
  | inl e ↦ rw e (append_cell-IsPlaced n v)
  | inr e ↦
      rw e (insert-IsPlaced (n.active + 1) (n.active + 1) ai [] n _ v (ground arith) refl refl refl)
]

get_elem?-bound :
    {A : Type 0} (xs : List A) (i : ℕ) {x : A} → get_elem? xs i ≡ some x → i < length xs
get_elem?-bound [] i e = absurd (ground arith)
get_elem?-bound (x ∷ xs) zero e = omega arith
get_elem?-bound (x ∷ xs) (suc i) e = omega (arith, get_elem?-bound xs i e)

pub prepare_retry-IsPlaced : (i : ℕ) (n : Notebook) → IsPlaced n → IsPlaced (prepare_retry i n).0
unfolding prepare_retry
prepare_retry-IsPlaced i n v = elim (Option-cases (get_elem? n.cells i)) [
  | inl e ↦ rw e v
  | inr (c, e) ↦ elim (Bool-cases (truthy (trim c.source))) [
    | inl k ↦
        rw (e, k)
          (insert-IsPlaced (i + 1) (i + 1) c.kind c.source n _ v
            (omega (arith, get_elem?-bound n.cells i e)) refl refl refl)
    | inr k ↦ rw (e, k) v
  ]
]

pub cancel_queued_runs-IsPlaced :
    (id : Text) (n : Notebook) → IsPlaced n → IsPlaced (cancel_queued_runs id n)
unfolding cancel_queued_runs
cancel_queued_runs-IsPlaced id n v = elim (Bool-cases (runs_cell n.active_request id)) [
  | inl e ↦ rw e (SamePlaces-IsPlaced _ n refl refl refl v)
  | inr e ↦
      rw e (SamePlaces-IsPlaced _ n refl refl (update_cell-ids id _ n.cells (λ c. ground arith)) v)
]

remove_active-IsPlaced : (n : Notebook) → IsPlaced n → IsPlaced (remove_active n)
remove_active-IsPlaced n v =
    let same : ids (remove_at n.active n.cells) ≡ remove_at n.active (ids n.cells) =
      map-remove_at (λ (d : WorkspaceCell). d.id) n.active n.cells in
    record {
      in_range = ground arith;
      distinct = subst Distinct (sym same) (Distinct-remove_at n.active (ids n.cells) v.distinct);
      below =
          subst (λ s. All (Below n.cell_counter) s) (sym same)
            (All-remove_at (Below n.cell_counter) n.active (ids n.cells) v.below);
    }

pub delete_active-IsPlaced : (n : Notebook) → IsPlaced n → IsPlaced (delete_active n).0
unfolding delete_active cancel_queued_runs
delete_active-IsPlaced n v = elim (Bool-cases (is_empty n)) [
  | inl k ↦ rw k v
  | inr k ↦ elim (Option-cases (get_elem? n.cells n.active)) [
    | inl e ↦ rw (k, e) v
    | inr (c, e) ↦ elim (Bool-cases (runs_cell n.active_request c.id)) [
      | inl b ↦ rw (k, e, b) v
      | inr b ↦
          let w = rw b at (cancel_queued_runs-IsPlaced c.id n v) in
          rw (k, e, b) (remove_active-IsPlaced _ w)
    ]
  ]
]

pub ensure_trailing_input-IsPlaced :
    (n : Notebook) → IsPlaced n → IsPlaced (ensure_trailing_input n).0
unfolding ensure_trailing_input
ensure_trailing_input-IsPlaced n v = elim (Option-cases (last? n.cells)) [
  | inl e ↦ rw e (append_cell-IsPlaced n v)
  | inr (c, e) ↦ elim (Bool-cases (is_blank_input c)) [
    | inl b ↦ rw (e, b) v
    | inr b ↦
        rw (e, b)
          (insert-IsPlaced (length n.cells) n.active ai [] n _ v (omega (arith, v.in_range)) refl
            refl (snoc-insert_at (fresh_cell (n.cell_counter + 1) ai []) n.cells))
  ]
]

pub advance_after_run-IsPlaced : (n : Notebook) → IsPlaced n → IsPlaced (advance_after_run n).0
unfolding advance_after_run
advance_after_run-IsPlaced n v =
    let m = if n.active + 1 == length n.cells then (ensure_trailing_input n).0 else n in
    let w : IsPlaced m = elim (Bool-cases (n.active + 1 == length n.cells)) [
      | inl e ↦ rw e (ensure_trailing_input-IsPlaced n v)
      | inr e ↦ rw e v
    ] in
    let active = if ltb (m.active + 1) (length m.cells) then m.active + 1 else m.active in
    let range : active ≤ length m.cells - 1 = ground (arith, w.in_range) in
    record { in_range = range; distinct = w.distinct; below = w.below }
