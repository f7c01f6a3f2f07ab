-- ===== src/HistoryBridge/Tests.antt =====
-- src/agent/history-bridge.ts: runs on a concrete notebook.
use jupyter_plugin_aitermina.Notebook.{
  CellStatus, WorkspaceCell, Notebook, fresh_cell, new_notebook,
}
use jupyter_plugin_aitermina.HistoryBridge.Membership.{
  project_context_membership, context_membership, membership_count, ai_count,
  ContextMembershipEntry, bridged, draft,
}
use jupyter_plugin_aitermina.HistoryBridge.Belonging.{
  project_context_membership-counts, project-set_agent_context_bridge, IsProjection, ids_of,
}
use jupyter_plugin_aitermina.Base.{
  [], ◌∷◌, ◌+◌, codes, text_eq, ◌≡◌, some, decimal, map, true, refl, ℕ, Option, Text, trim, suc,
  trim_end, take_last, zero, none, trim_start, is_space, ltb,
}
use jupyter_plugin_aitermina.Notebook.Context.{set_agent_context_bridge}
use jupyter_plugin_aitermina.Protocol.{ai}
use jupyter_plugin_aitermina.HistoryBridge.Building.{
  history_before, capsule_of, is_eligible_history_cell, whole_capsule,
  serialized_history_bridge_length, truncate_field, build_history_bridge, canonical_outcome,
  last_text_block, cut_capsule, drop_turns, drop_tasks, cut_outcome, turn_length, task_length,
  json_string, json_units,
}
use jupyter_plugin_aitermina.HistoryBridge.Tasks.{
  background_task_references, find_start, find_tag, see_cells, read_start, read_id_tag, see_blocks,
  strip_prefix, read_state_tag, span, path_before_notice,
}
use jupyter_plugin_aitermina.HistoryBridge.{HistoryBridgeCapsule, task_failed}
use jupyter_plugin_aitermina.HistoryBridge.Counts.{GivesCounted, build_history_bridge-GivesCounted}
use jupyter_plugin_aitermina.Protocol.DshParse.{member}

abbrev done_cell : WorkspaceCell
done_cell = record (fresh_cell 1 ai (codes "hi")) {
  status = CellStatus.done;
  execution_count = some 1;
  agent_context_generation = some 0;
}

abbrev two_cells : Notebook
two_cells = record new_notebook { cells = done_cell ∷ fresh_cell 2 ai [] ∷ [] }

memberships :
    map
      (λ (e : ContextMembershipEntry). e.membership)
      (project_context_membership two_cells.cells 1
        (set_agent_context_bridge (done_cell.id ∷ []) 1 two_cells).agent_context_bridges).entries
    ≡ bridged ∷ draft ∷ []
unfolding project_context_membership context_membership membership_count set_agent_context_bridge
    text_eq decimal
memberships = refl

project_context_membership-counts_example :
    let p = project_context_membership two_cells.cells 0 [] in
    IsProjection two_cells.cells 0 (ids_of 0 []) p
    × (p.native_count + p.bridged_count + p.outside_count + p.draft_count
        ≡ ai_count two_cells.cells)
project_context_membership-counts_example = project_context_membership-counts two_cells.cells 0 []

project-set_agent_context_bridge_example :
    let p =
      project_context_membership two_cells.cells 1
        (set_agent_context_bridge (done_cell.id ∷ []) 1 two_cells).agent_context_bridges in
    IsProjection two_cells.cells 1 (done_cell.id ∷ []) p × (p.policy_chosen ≡ true)
project-set_agent_context_bridge_example =
    project-set_agent_context_bridge (done_cell.id ∷ []) 1 two_cells

history_of_two : history_before (codes "cell-2") two_cells.cells ≡ some (done_cell ∷ [])
unfolding history_before is_eligible_history_cell text_eq decimal trim trim_end trim_start is_space
history_of_two = refl

build_history_bridge-GivesCounted_example :
    GivesCounted 1 0 (build_history_bridge two_cells.cells (codes "cell-2"))
unfolding background_task_references see_cells see_blocks take_last
build_history_bridge-GivesCounted_example =
    build_history_bridge-GivesCounted two_cells.cells (codes "cell-2") done_cell [] history_of_two

started_task :
    find_start true (
      codes
        "ok\nCommand running in background with ID: b1. Output is being written to: /tmp/b1.out. You will be notified")
    ≡ some (codes "b1", codes "/tmp/b1.out")
unfolding find_start read_start strip_prefix span path_before_notice
started_task = refl

task_tags :
    (find_tag read_id_tag (codes "<task_id>b1</task_id><status>failed</status>")
      ≡ some (codes "b1"))
    × (find_tag read_state_tag (codes "<task_id>b1</task_id><status>failed</status>")
        ≡ some task_failed)
unfolding find_tag read_id_tag read_state_tag strip_prefix span member text_eq
task_tags = (refl, refl)

abbrev repeated : ℕ → Text
repeated zero = []
repeated (suc n) = 27 ∷ repeated n

-- An output of 2,400 escape characters, each of which JSON prints with six.
abbrev noisy_cell : WorkspaceCell
noisy_cell = record done_cell { output = repeated 2400 }

abbrev length_of : Option HistoryBridgeCapsule → ℕ
length_of none = 0
length_of (some c) = serialized_history_bridge_length c

noisy_is_too_long : ltb 12000 (length_of (capsule_of (noisy_cell ∷ []))) ≡ true
unfolding capsule_of whole_capsule background_task_references see_cells see_blocks take_last
    truncate_field canonical_outcome last_text_block cut_capsule drop_turns drop_tasks cut_outcome
    serialized_history_bridge_length turn_length task_length json_string json_units decimal trim
    trim_end trim_start is_space text_eq
noisy_is_too_long = refl
