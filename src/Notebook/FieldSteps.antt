-- ===== src/Notebook/FieldSteps.antt =====
-- src/agent/notebook.ts: the methods that assign to fields keep what the invariants state.
use jupyter_plugin_aitermina.Base.{
  ℕ, Text, Option, List, ◌≡◌, Bool-cases, Option-cases, not, refl, ap, arith, get_elem?, some,
  subst, inl, sym, inr, none, ◌||◌, is_some, All,
}
use jupyter_plugin_aitermina.Notebook.{
  Notebook, WorkspaceCell, update_at, is_empty, find_cell, status_eq, idle, create_cell,
}
use jupyter_plugin_aitermina.Notebook.Cells.{
  set_source, set_draft_kind, set_blocks, set_turn, update_turn, toggle_output_collapsed,
  enter_edit, exit_edit, write_source, write_turn, turn_of,
}
use jupyter_plugin_aitermina.Notebook.Context.{start_new_agent_context, set_agent_context_bridge}
use jupyter_plugin_aitermina.Protocol.{WorkspaceMode, ChatBlock}
use jupyter_plugin_aitermina.Turn.{ChatTurn}
use jupyter_plugin_aitermina.Notebook.Steps.{IsValid}
use jupyter_plugin_aitermina.Notebook.Updates.{KeepsId, update_cell-ids, update_at-ids}
use jupyter_plugin_aitermina.Notebook.Placement.{SamePlaces-IsPlaced}
use jupyter_plugin_aitermina.Notebook.Ids.{ids, Below-suc}
use jupyter_plugin_aitermina.Notebook.Statuses.{SameStatus_by_id-IsServed, SameStatus-IsServed}
use jupyter_plugin_aitermina.Notebook.Runs.{restore_counters}
use jupyter_plugin_aitermina.Notebook.Counters.{IsExact, restore_counters-Below}

at-IsValid :
    (i : ℕ) (f : WorkspaceCell → WorkspaceCell) (n m : Notebook)
    → KeepsId f
    → ((c : WorkspaceCell) → (f c).status ≡ c.status)
    → m ≡ record n { cells = update_at i f n.cells; explicit_draft_kinds = m.explicit_draft_kinds }
    → IsValid n
    → IsValid m
at-IsValid i f n m h k e v = subst IsValid (sym e) (record {
  placed = SamePlaces-IsPlaced _ n refl refl (update_at-ids i f n.cells h) v.placed;
  served = SameStatus-IsServed i f n _ h k refl refl refl v.served;
})

-- The same cells, selection, counter and runs.
pub unchanged-IsValid :
    (n m : Notebook)
    → m.cells ≡ n.cells
    → m.active ≡ n.active
    → m.cell_counter ≡ n.cell_counter
    → m.active_request ≡ n.active_request
    → m.run_queue ≡ n.run_queue
    → IsValid n
    → IsValid m
unchanged-IsValid n m e a k r q v = record {
  placed = SamePlaces-IsPlaced m n a k (ap ids e) v.placed;
  served = record { fits = rw (e, r, q) v.served.fits; owner = rw (e, r) v.served.owner };
}

write_source-id : (s : Text) (x : List Text) → KeepsId (write_source s x)
write_source-id s x c = ground arith

write_source-status :
    (s : Text) (x : List Text) (c : WorkspaceCell) → (write_source s x c).status ≡ c.status
write_source-status s x c = ground arith

pub set_source-IsValid : (s : Text) (n : Notebook) → IsValid n → IsValid (set_source s n)
unfolding set_source
set_source-IsValid s n v = elim (Bool-cases (is_empty n)) [
  | inl e ↦ rw e v
  | inr e ↦ rw e (
      at-IsValid n.active (write_source s n.explicit_draft_kinds) n _
        (write_source-id s n.explicit_draft_kinds) (write_source-status s n.explicit_draft_kinds)
        refl v)
]

pub set_draft_kind-IsValid :
    (kind : WorkspaceMode) (i : ℕ) (n : Notebook) → IsValid n → IsValid (set_draft_kind kind i n).0
unfolding set_draft_kind
set_draft_kind-IsValid kind i n v = elim (Option-cases (get_elem? n.cells i)) [
  | inl e ↦ rw e v
  | inr (c, e) ↦ elim (Bool-cases (not (status_eq c.status idle) || is_some c.execution_count)) [
    | inl b ↦ rw (e, b) v
    | inr b ↦
        rw (e, b) (at-IsValid i (λ c. record c { kind = kind }) n _ (λ c. refl) (λ c. refl) refl v)
  ]
]

pub set_blocks-IsValid :
    (bs : List ChatBlock) (n : Notebook) → IsValid n → IsValid (set_blocks bs n)
unfolding set_blocks
set_blocks-IsValid bs n v = elim (Bool-cases (is_empty n)) [
  | inl e ↦ rw e v
  | inr e ↦
      rw e (at-IsValid n.active (λ c. record c { blocks = bs }) n _ (λ c. refl) (λ c. refl) refl v)
]

pub set_turn-IsValid : (t : Option ChatTurn) (n : Notebook) → IsValid n → IsValid (set_turn t n)
unfolding set_turn
set_turn-IsValid t n v = elim (Bool-cases (is_empty n)) [
  | inl e ↦ rw e v
  | inr e ↦
      rw e (at-IsValid n.active (λ c. record c { turn = t }) n _ (λ c. refl) (λ c. refl) refl v)
]

write_turn-IsValid :
    (t : Option ChatTurn) (id : Text) (u : ChatTurn → ChatTurn) (n : Notebook)
    → IsValid n
    → IsValid (write_turn t id u n).0
write_turn-IsValid none id u n v = v
write_turn-IsValid (some t) id u n v =
    let f = λ (c : WorkspaceCell). record c { turn = some (u t) } in
    record {
      placed =
          SamePlaces-IsPlaced _ n refl refl (update_cell-ids id f n.cells (λ c. refl)) v.placed;
      served =
          SameStatus_by_id-IsServed id f n _ (λ c. refl) (λ c. refl) v.placed.distinct refl refl
            refl v.served;
    }

pub update_turn-IsValid :
    (id : Text) (u : ChatTurn → ChatTurn) (n : Notebook)
    → IsValid n
    → IsValid (update_turn id u n).0
unfolding update_turn
update_turn-IsValid id u n v = write_turn-IsValid (turn_of (find_cell id n.cells)) id u n v

pub toggle-IsValid : (i : ℕ) (n : Notebook) → IsValid n → IsValid (toggle_output_collapsed i n)
unfolding toggle_output_collapsed
toggle-IsValid i n v =
    at-IsValid i (λ c. record c { output_collapsed = not c.output_collapsed }) n _ (λ c. refl)
      (λ c. refl) refl v

pub enter-IsValid : (n : Notebook) → IsValid n → IsValid (enter_edit n)
unfolding enter_edit
enter-IsValid n v = unchanged-IsValid n _ refl refl refl refl refl v

pub exit-IsValid : (n : Notebook) → IsValid n → IsValid (exit_edit n)
unfolding exit_edit
exit-IsValid n v = unchanged-IsValid n _ refl refl refl refl refl v

pub create_cell-IsValid :
    (kind : WorkspaceMode) (source : Text) (n : Notebook)
    → IsValid n
    → IsValid (create_cell kind source n).0
create_cell-IsValid kind source n v = record {
  placed = record {
    in_range = v.placed.in_range;
    distinct = v.placed.distinct;
    below = Below-suc n.cell_counter (ids n.cells) v.placed.below;
  };
  served = record { fits = v.served.fits; owner = v.served.owner };
}

pub restore_counters-IsValid :
    (n : Notebook) → All IsExact (ids n.cells) → IsValid n → IsValid (restore_counters n.cells n)
unfolding restore_counters
restore_counters-IsValid n e v = record {
  placed = record {
    in_range = v.placed.in_range;
    distinct = v.placed.distinct;
    below = restore_counters-Below n e;
  };
  served = record { fits = v.served.fits; owner = v.served.owner };
}

pub start-IsValid :
    (s : Option (List Text)) (n : Notebook) → IsValid n → IsValid (start_new_agent_context s n).0
unfolding start_new_agent_context
start-IsValid s n v = unchanged-IsValid n _ refl refl refl refl refl v

pub bridge-IsValid :
    (s : List Text) (g : ℕ) (n : Notebook) → IsValid n → IsValid (set_agent_context_bridge s g n)
unfolding set_agent_context_bridge
bridge-IsValid s g n v = unchanged-IsValid n _ refl refl refl refl refl v
