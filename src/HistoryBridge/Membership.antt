-- ===== src/HistoryBridge/Membership.antt =====
-- src/agent/history-bridge.ts: which cells belong to an agent's context.
use jupyter_plugin_aitermina.Notebook.{CellStatus}
use jupyter_plugin_aitermina.Base.{
  ℕ, Text, Bool, List, Option, true, map, if◌then◌else◌, ◌∷◌, ◌+◌, false, not, keep, ◌++◌, [],
  length, some, ◌&&◌, ◌==◌, is_some, none,
}
use jupyter_plugin_aitermina.Notebook.{WorkspaceCell, status_eq, AgentContextBridge, is_ai}
use jupyter_plugin_aitermina.Notebook.Cells.{has_text}

pub data ContextMembership : Type 0 where
  native bridged outside draft no_membership : ContextMembership

pub record ContextMembershipEntry : Type 0 where
  pub cell_id : Text
  pub membership : ContextMembership

pub record ContextMembershipProjection : Type 0 where
  pub generation : ℕ
  pub entries : List ContextMembershipEntry
  pub native_count : ℕ
  pub bridged_count : ℕ
  pub outside_count : ℕ
  pub draft_count : ℕ
  pub policy_chosen : Bool

abbrev pub is_draft : WorkspaceCell → Bool
is_draft c =
    status_eq c.status CellStatus.idle
    && not (is_some c.execution_count)
    && not (is_some c.turn)
    && length c.blocks == 0

-- `generation === o`
abbrev pub is_generation : ℕ → Option ℕ → Bool
is_generation g none = false
is_generation g (some h) = h == g

unfoldable pub context_membership : ℕ → List Text → WorkspaceCell → ContextMembership
context_membership g bridged_ids c =
    if not (is_ai c.kind)
    then no_membership
    else if is_draft c
    then draft
    else if is_generation g c.agent_context_generation
    then native
    else if has_text c.id bridged_ids
    then bridged
    else outside

abbrev pub membership_eq : ContextMembership → ContextMembership → Bool
membership_eq native native = true
membership_eq bridged bridged = true
membership_eq outside outside = true
membership_eq draft draft = true
membership_eq no_membership no_membership = true
membership_eq _ _ = false

unfoldable pub membership_count : ContextMembership → List ContextMembershipEntry → ℕ
membership_count m [] = 0
membership_count m (e ∷ es) =
    if membership_eq e.membership m then 1 + membership_count m es else membership_count m es

abbrev pub current_bridges : ℕ → List AgentContextBridge → List AgentContextBridge
current_bridges g = keep λ (b : AgentContextBridge). b.generation == g

-- The set of ids, as the list of what is added to it.
abbrev pub bridge_ids : List AgentContextBridge → List Text
bridge_ids [] = []
bridge_ids (b ∷ bs) = b.cell_ids ++ bridge_ids bs

abbrev pub membership_entries : ℕ → List Text → List WorkspaceCell → List ContextMembershipEntry
membership_entries g bridged_ids = map λ (c : WorkspaceCell). record {
  cell_id = c.id;
  membership = context_membership g bridged_ids c;
}

unfoldable pub project_context_membership :
    List WorkspaceCell → ℕ → List AgentContextBridge → ContextMembershipProjection
unfolding membership_count context_membership
project_context_membership cells g bridges =
    let current = current_bridges g bridges in
    let entries = membership_entries g (bridge_ids current) cells in
    record {
      generation = g;
      entries = entries;
      native_count = membership_count native entries;
      bridged_count = membership_count bridged entries;
      outside_count = membership_count outside entries;
      draft_count = membership_count draft entries;
      policy_chosen = not (length current == 0);
    }

abbrev pub ai_count : List WorkspaceCell → ℕ
ai_count [] = 0
ai_count (c ∷ cs) = if is_ai c.kind then 1 + ai_count cs else ai_count cs
