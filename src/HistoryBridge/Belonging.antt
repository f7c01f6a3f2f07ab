-- ===== src/HistoryBridge/Belonging.antt =====
-- src/agent/history-bridge.ts: what a membership says of its cell.
use mathlib.Core.List.{append-nil}
use jupyter_plugin_aitermina.HistoryBridge.Membership.{
  native, bridged, outside, draft, no_membership, context_membership, ContextMembership,
  membership_count, project_context_membership, is_draft, is_generation, ContextMembershipEntry,
  membership_entries, ContextMembershipProjection, bridge_ids, current_bridges, membership_eq,
  ai_count,
}
use jupyter_plugin_aitermina.Protocol.{command, ai, WorkspaceMode}
use jupyter_plugin_aitermina.Base.{
  List, ℕ, Text, Option, Bool, All, not, length, Bool-cases, ◌≡◌, ◌&&◌, none, some, true, is_some,
  false, keep, inr, ◌≢◌, ◌==◌, ◌∷◌, ◌+◌, [], true-ne-false, arith, text_eq, ap, inl, ◌++◌, sym, ◌∙◌,
  refl, text_eq_iff, subst,
}
use jupyter_plugin_aitermina.Notebook.{
  WorkspaceCell, CellStatus, status_eq, is_ai, AgentContextBridge, Notebook,
}
use jupyter_plugin_aitermina.Notebook.Cells.{has_text}
use jupyter_plugin_aitermina.Notebook.Context.{set_agent_context_bridge}

-- Nothing was run from the cell.
abbrev pub IsUnrun : WorkspaceCell → Type 0
IsUnrun c =
    (c.status ≡ CellStatus.idle) × (c.execution_count ≡ none) × (c.turn ≡ none) × (c.blocks ≡ [])

abbrev pub IsNone : Text → List Text → Type 0
IsNone s = All λ t. t ≢ s

-- A cell of the agent that ran something.
abbrev pub HasRun : WorkspaceCell → Type 0
HasRun c = (c.kind ≡ ai) × (¬ IsUnrun c)

-- When a cell has a membership, for a generation and the ids of its bridges. A cell belongs to one
-- of the five.
abbrev pub Belongs : ℕ → List Text → ContextMembership → WorkspaceCell → Type 0
Belongs g ids native c = HasRun c × (c.agent_context_generation ≡ some g)
Belongs g ids bridged c = HasRun c × (c.agent_context_generation ≢ some g) × (¬ IsNone c.id ids)
Belongs g ids outside c = HasRun c × (c.agent_context_generation ≢ some g) × IsNone c.id ids
Belongs g ids draft c = (c.kind ≡ ai) × IsUnrun c
Belongs g ids no_membership c = c.kind ≡ command

status_eq-idle : (s : CellStatus) → status_eq s CellStatus.idle ≡ true → s ≡ CellStatus.idle
status_eq-idle CellStatus.idle h = refl
status_eq-idle CellStatus.queued h = absurd (true-ne-false (sym h))
status_eq-idle CellStatus.running h = absurd (true-ne-false (sym h))
status_eq-idle CellStatus.done h = absurd (true-ne-false (sym h))
status_eq-idle CellStatus.interrupted h = absurd (true-ne-false (sym h))

is_some-none : {A : Type 0} (o : Option A) → not (is_some o) ≡ true → o ≡ none
is_some-none none h = refl
is_some-none (some x) h = absurd (true-ne-false (sym h))

length-nil : {A : Type 0} (xs : List A) → (length xs == 0) ≡ true → xs ≡ []
length-nil [] h = refl
length-nil (x ∷ xs) h = absurd (ground arith)

both : (a b : Bool) → (a && b) ≡ true → (a ≡ true) × (b ≡ true)
both true b h = (refl, h)
both false b h = absurd (true-ne-false (sym h))

is_draft-IsUnrun : (c : WorkspaceCell) → is_draft c ≡ true → IsUnrun c
is_draft-IsUnrun c h =
    let idle_now = status_eq c.status CellStatus.idle in
    let uncounted = not (is_some c.execution_count) in
    let no_turn = not (is_some c.turn) in
    let (first, b) = both (idle_now && uncounted && no_turn) (length c.blocks == 0) h in
    let (start, t) = both (idle_now && uncounted) no_turn first in
    let (s, e) = both idle_now uncounted start in
    (
      status_eq-idle c.status s,
      is_some-none c.execution_count e,
      is_some-none c.turn t,
      length-nil c.blocks b,
    )

IsUnrun-is_draft : (c : WorkspaceCell) → IsUnrun c → is_draft c ≡ true
IsUnrun-is_draft c (s, e, t, b) = rw (s, e, t, b) refl

is_generation_sound : (g : ℕ) (o : Option ℕ) → is_generation g o ≡ true → o ≡ some g
is_generation_sound g none h = absurd (true-ne-false (sym h))
is_generation_sound g (some k) h = ap some (ground arith)

is_generation_other : (g : ℕ) (o : Option ℕ) → is_generation g o ≡ false → o ≢ some g
is_generation_other g o h e =
    let same : is_generation g (some g) ≡ true = ground arith in
    true-ne-false (sym same ∙ ap (is_generation g) (sym e) ∙ h)

has_text-IsNone : (s : Text) (ss : List Text) → has_text s ss ≡ false → IsNone s ss
has_text-IsNone s [] h = tt
has_text-IsNone s (t ∷ ss) h = elim (Bool-cases (text_eq t s)) [
  | inl e ↦ absurd (true-ne-false (ground arith))
  | inr e ↦
      (λ k. true-ne-false (sym ((text_eq_iff t s).1 k) ∙ e), has_text-IsNone s ss (ground arith))
]

has_text_some : (s : Text) (ss : List Text) → has_text s ss ≡ true → ¬ IsNone s ss
has_text_some s [] h n = true-ne-false (sym h)
has_text_some s (t ∷ ss) h (p, n) = elim (Bool-cases (text_eq t s)) [
  | inl e ↦ p ((text_eq_iff t s).0 e)
  | inr e ↦ has_text_some s ss (ground arith) n
]

is_ai-kind : (k : WorkspaceMode) → is_ai k ≡ true → k ≡ ai
is_ai-kind ai h = refl
is_ai-kind command h = absurd (true-ne-false (sym h))

command-kind : (k : WorkspaceMode) → is_ai k ≡ false → k ≡ command
command-kind ai h = absurd (true-ne-false h)
command-kind command h = refl

membership-Belongs :
    (g : ℕ) (ids : List Text) (c : WorkspaceCell) → Belongs g ids (context_membership g ids c) c
unfolding context_membership
membership-Belongs g ids c = elim (Bool-cases (is_ai c.kind)) [
  | inr k ↦ rw (k, context_membership) (command-kind c.kind k)
  | inl k ↦ elim (Bool-cases (is_draft c)) [
    | inl d ↦ rw (k, d, context_membership) (is_ai-kind c.kind k, is_draft-IsUnrun c d)
    | inr d ↦
        let run : HasRun c =
          (is_ai-kind c.kind k, λ u. true-ne-false (sym (IsUnrun-is_draft c u) ∙ d)) in
        elim (Bool-cases (is_generation g c.agent_context_generation)) [
          | inl e ↦
              rw (k, d, e, context_membership)
                (run, is_generation_sound g c.agent_context_generation e)
          | inr e ↦
              let other = is_generation_other g c.agent_context_generation e in
              elim (Bool-cases (has_text c.id ids)) [
                | inl h ↦ rw (k, d, e, h, context_membership) (run, other, has_text_some c.id ids h)
                | inr h ↦
                    rw (k, d, e, h, context_membership) (run, other, has_text-IsNone c.id ids h)
              ]
        ]
  ]
]

-- The entries name the cells in their order, each with the membership that it has.
abbrev pub Classified : ℕ → List Text → List WorkspaceCell → List ContextMembershipEntry → Type 0
Classified g ids [] [] = Unit
Classified g ids (c ∷ cs) (e ∷ es) =
    (e.cell_id ≡ c.id) × Belongs g ids e.membership c × Classified g ids cs es
Classified g ids [] (e ∷ es) = ⊥
Classified g ids (c ∷ cs) [] = ⊥

entries-Classified :
    (g : ℕ) (ids : List Text) (cells : List WorkspaceCell)
    → Classified g ids cells (membership_entries g ids cells)
entries-Classified g ids [] = tt
entries-Classified g ids (c ∷ cs) = (refl, membership-Belongs g ids c, entries-Classified g ids cs)

-- How many entries have a membership.
abbrev pub occurrences : ContextMembership → List ContextMembershipEntry → ℕ
occurrences m es = length (keep (λ (e : ContextMembershipEntry). membership_eq e.membership m) es)

count-occurrences :
    (m : ContextMembership) (es : List ContextMembershipEntry)
    → membership_count m es ≡ occurrences m es
unfolding membership_count
count-occurrences m [] = refl
count-occurrences m (e ∷ es) = elim (Bool-cases (membership_eq e.membership m)) [
  | inl h ↦ rw h (omega (arith, count-occurrences m es))
  | inr h ↦ rw h (count-occurrences m es)
]

-- The ids of the bridges of a generation.
abbrev pub ids_of : ℕ → List AgentContextBridge → List Text
ids_of g bridges = bridge_ids (current_bridges g bridges)

-- A projection that classifies the cells and counts its own entries.
pub record IsProjection (cells : List WorkspaceCell) (g : ℕ) (ids : List Text)
    (p : ContextMembershipProjection) : Type 0 where
  pub classified : Classified g ids cells p.entries
  pub native : p.native_count ≡ occurrences ContextMembership.native p.entries
  pub bridged : p.bridged_count ≡ occurrences ContextMembership.bridged p.entries
  pub outside : p.outside_count ≡ occurrences ContextMembership.outside p.entries
  pub draft : p.draft_count ≡ occurrences ContextMembership.draft p.entries

project-IsProjection :
    (cells : List WorkspaceCell) (g : ℕ) (bridges : List AgentContextBridge)
    → IsProjection cells g (ids_of g bridges) (project_context_membership cells g bridges)
unfolding project_context_membership
project-IsProjection cells g bridges =
    let entries = membership_entries g (ids_of g bridges) cells in
    record {
      classified = entries-Classified g (ids_of g bridges) cells;
      native = count-occurrences ContextMembership.native entries;
      bridged = count-occurrences ContextMembership.bridged entries;
      outside = count-occurrences ContextMembership.outside entries;
      draft = count-occurrences ContextMembership.draft entries;
    }

four-counts :
    (g : ℕ) (ids : List Text) (cells : List WorkspaceCell)
    → let es = membership_entries g ids cells in
      membership_count native es
        + membership_count bridged es
        + membership_count outside es
        + membership_count draft es
      ≡ ai_count cells
unfolding membership_count context_membership
four-counts g ids [] = omega arith
four-counts g ids (c ∷ cells) = ground (arith, four-counts g ids cells)

-- A projection names the cells in their order. A command has no membership, an agent's cell from which
-- nothing was run is a draft, another is native when its generation is the projected one, bridged when
-- a bridge of that generation has its id, and outside otherwise. The four counts are those of the
-- entries and add up to the number of the agent's cells.
pub project_context_membership-counts :
    (cells : List WorkspaceCell) (g : ℕ) (bridges : List AgentContextBridge)
    → let p = project_context_membership cells g bridges in
      IsProjection cells g (ids_of g bridges) p
      × (p.native_count + p.bridged_count + p.outside_count + p.draft_count ≡ ai_count cells)
unfolding project_context_membership
project_context_membership-counts cells g bridges =
    (project-IsProjection cells g bridges, four-counts g (ids_of g bridges) cells)

others-current :
    (g : ℕ) (ids : List Text) (bs : List AgentContextBridge)
    → let b : AgentContextBridge = record { generation = g; cell_ids = ids } in
      current_bridges g (keep (λ (d : AgentContextBridge). not (d.generation == g)) bs ++ b ∷ [])
      ≡ b ∷ []
others-current g ids [] = ground arith
others-current g ids (b ∷ bs) = ground (arith, others-current g ids bs)

-- After the bridge of a generation is set, the projection of that generation treats the policy as
-- chosen, and of the agent's cells that ran something in no or another generation exactly those whose
-- ids are set are bridged, whatever bridges there were; the others are native, drafts or outside as
-- before.
pub project-set_agent_context_bridge :
    (ids : List Text) (g : ℕ) (n : Notebook)
    → let p =
        project_context_membership n.cells g
          (set_agent_context_bridge ids g n).agent_context_bridges in
      IsProjection n.cells g ids p × (p.policy_chosen ≡ true)
unfolding project_context_membership set_agent_context_bridge
project-set_agent_context_bridge ids g n =
    let bridges = (set_agent_context_bridge ids g n).agent_context_bridges in
    let current = others-current g ids n.agent_context_bridges in
    let set_ids : ids_of g bridges ≡ ids = ap bridge_ids current ∙ append-nil ids in
    (
      subst (λ s. IsProjection n.cells g s (project_context_membership n.cells g bridges)) set_ids
          (project-IsProjection n.cells g bridges),
      ap (λ bs. not (length bs == 0)) current,
    )
