-- ===== src/Document/WellFormed.antt =====
-- src/agent/document.ts: whatever a document holds, the snapshot that is read of it is sound.
use jupyter_plugin_aitermina.Base.{
  Option, Text, All, ℕ, ◌⊎◌, Bool, List, Option-cases, inl, some, inr, ◌≡◌, none, false, All-image,
  Bool-cases, leb, All-keep, codes, refl, All-map, map, if◌then◌else◌, ltb, ◌≤◌,
}
use jupyter_plugin_aitermina.Document.{WorkspaceSnapshot, CellSnapshot}
use jupyter_plugin_aitermina.Document.Snapshots.{
  cells_of_session, stored_bridges, bridges_of_session, stored_reference, assemble_snapshot,
  empty_snapshot, normalize_snapshot, parse_workspace_snapshot, bound_cells, is_above,
  newer_version, clear_if, bridge_cell_of, array_of, migrate_legacy_context,
}
use jupyter_plugin_aitermina.Document.Bridges.{
  normalize_context_bridges, has_generation, BridgeCell, read_candidates,
}
use jupyter_plugin_aitermina.Document.Reading.{ReadError, normalize_cells}
use jupyter_plugin_aitermina.Json.{Value, Fields, get, bool, num, str, arr, obj, null}
use jupyter_plugin_aitermina.Turn.Persistence.{Unchecked, fields_of}
use jupyter_plugin_aitermina.Document.Ordering.{
  IsOrdered, keep-Increasing, generation_of, normalize_candidates-IsOrdered,
}
use jupyter_plugin_aitermina.Document.Acceptable.{
  IsReference, IsSession, if-IsReference, normalize_agent_session_id-IsSession,
  normalize_agent_session_reference-IsReference,
}
use jupyter_plugin_aitermina.Notebook.{AgentContextBridge}
use jupyter_plugin_aitermina.Document.Normalizing.{normalize_generation}
use jupyter_plugin_aitermina.Document.References.{normalize_agent_session_reference}

-- Without a session no generation is the current one.
abbrev pub IsUnlived : Option Text → ℕ → Option ℕ → Type 0
IsUnlived none g o = has_generation o g ≡ false
IsUnlived (some s) g o = Unit

abbrev pub IsPast : Option Text → ℕ → Option ℕ → Type 0
IsPast session g o = (is_above g o ≡ false) × IsUnlived session g o

pub record IsSound (s : WorkspaceSnapshot) : Type 0 where
  pub past :
      All
        (λ c. IsPast s.agent_session_id s.agent_context_generation c.agent_context_generation)
        s.cells
  pub ordered : IsOrdered s.agent_context_generation s.agent_context_bridges
  pub reference : IsReference s.session_reference
  pub session : IsSession s.agent_session_id

-- A generation that a test clears when it holds passes the opposite of it afterwards.
clear_if-passes :
    (p : Option ℕ → Bool) (c : CellSnapshot)
    → p none ≡ false
    → p (clear_if p c).agent_context_generation ≡ false
clear_if-passes p c h = elim (Bool-cases (p c.agent_context_generation)) [
  | inl e ↦ rw e h
  | inr e ↦ rw e e
]

-- Clearing does not undo what another test says of `none`.
clear_if-keeps :
    (p q : Option ℕ → Bool) (c : CellSnapshot)
    → q none ≡ false
    → q c.agent_context_generation ≡ false
    → q (clear_if p c).agent_context_generation ≡ false
clear_if-keeps p q c h k = elim (Bool-cases (p c.agent_context_generation)) [
  | inl e ↦ rw e h
  | inr e ↦ rw e k
]

cells_of_session-IsPast :
    (session : Option Text) (g : ℕ) (cells : List CellSnapshot)
    → All
        (λ c. IsPast session g c.agent_context_generation)
        (cells_of_session session g (bound_cells g cells))
unfolding cells_of_session bound_cells
cells_of_session-IsPast (some s) g cells =
    All-image (λ c. IsPast (some s) g c.agent_context_generation) (clear_if (is_above g)) cells
      λ c. (clear_if-passes (is_above g) c refl, tt)
cells_of_session-IsPast none g cells =
    All-map (λ c. is_above g c.agent_context_generation ≡ false)
      (λ c. IsPast none g c.agent_context_generation) (clear_if (λ o. has_generation o g))
      (map (clear_if (is_above g)) cells)
      (λ c h. (
        clear_if-keeps (λ o. has_generation o g) (is_above g) c refl h,
        clear_if-passes (λ o. has_generation o g) c refl,
      ))
      (All-image (λ c. is_above g c.agent_context_generation ≡ false) (clear_if (is_above g)) cells
        λ c. clear_if-passes (is_above g) c refl)

normalize_context_bridges-IsOrdered :
    (v : Option Value) (cells : List BridgeCell) (g : ℕ)
    → IsOrdered g (normalize_context_bridges v cells g)
unfolding normalize_context_bridges
normalize_context_bridges-IsOrdered none cells g = (tt, tt)
normalize_context_bridges-IsOrdered (some null) cells g = (tt, tt)
normalize_context_bridges-IsOrdered (some (bool b)) cells g = (tt, tt)
normalize_context_bridges-IsOrdered (some (num n)) cells g = (tt, tt)
normalize_context_bridges-IsOrdered (some (str s)) cells g = (tt, tt)
normalize_context_bridges-IsOrdered (some (arr items)) cells g =
    normalize_candidates-IsOrdered cells g (read_candidates items)
normalize_context_bridges-IsOrdered (some (obj fields)) cells g = (tt, tt)

stored_bridges-IsOrdered :
    (version : ℕ) (v : Option Value) (cells : List CellSnapshot) (g : ℕ)
    → IsOrdered g (stored_bridges version v cells g)
unfolding stored_bridges
stored_bridges-IsOrdered version v cells g = elim (Bool-cases (leb 4 version)) [
  | inl e ↦ rw e (normalize_context_bridges-IsOrdered v (map bridge_cell_of cells) g)
  | inr e ↦ rw e (tt, tt)
]

bridges_of_session-IsOrdered :
    (session : Option Text) (g : ℕ) (bs : List AgentContextBridge)
    → IsOrdered g bs
    → IsOrdered g (bridges_of_session session g bs)
unfolding bridges_of_session
bridges_of_session-IsOrdered (some s) g bs h = h
bridges_of_session-IsOrdered none g bs (i, h) =
    (keep-Increasing _ bs i, All-keep (λ b. generation_of b ≤ g) _ bs h)

stored_reference-IsReference :
    (version : ℕ) (v : Option Value) → IsReference (stored_reference version v)
unfolding stored_reference
stored_reference-IsReference version v =
    if-IsReference (leb 5 version) (normalize_agent_session_reference v)
      (normalize_agent_session_reference-IsReference v)

assemble_snapshot-IsSound :
    (fields : Fields) (cells : List CellSnapshot) → IsSound (assemble_snapshot fields cells)
unfolding assemble_snapshot
assemble_snapshot-IsSound fields cells =
    let s = assemble_snapshot fields cells in
    let version = normalize_generation (get (codes "version") fields) in
    let session = s.agent_session_id in
    let g = s.agent_context_generation in
    let migrated = if ltb version 4 then migrate_legacy_context version session cells else cells in
    let bridges = get (codes "agentContextBridges") fields in
    let kept = stored_bridges version bridges (bound_cells g migrated) g in
    record {
      past = cells_of_session-IsPast session g migrated;
      ordered =
          bridges_of_session-IsOrdered session g kept
            (stored_bridges-IsOrdered version bridges (bound_cells g migrated) g);
      reference = stored_reference-IsReference version (get (codes "sessionReference") fields);
      session = normalize_agent_session_id-IsSession (get (codes "agentSessionId") fields);
    }

abbrev pub SoundResult : ReadError ⊎ (ℕ × WorkspaceSnapshot) → Type 0
SoundResult (inl e) = Unit
SoundResult (inr (k, s)) = IsSound s

empty_snapshot-IsSound : (k : ℕ) → IsSound (empty_snapshot k).1
unfolding empty_snapshot
empty_snapshot-IsSound k = record {
  past = ((refl, refl), tt);
  ordered = (tt, tt);
  reference = tt;
  session = tt;
}

normalize_snapshot-IsSound :
    (unchecked : Unchecked) (k : ℕ) (v : Value) → SoundResult (normalize_snapshot unchecked k v)
unfolding normalize_snapshot
normalize_snapshot-IsSound unchecked k v =
    elim (Option-cases (newer_version (get (codes "version") (fields_of v)))) [
      | inr (n, e) ↦ rw (e, normalize_snapshot) tt
      | inl e ↦ elim (Option-cases (array_of (get (codes "cells") (fields_of v)))) [
        | inl a ↦ rw (e, a, normalize_snapshot) (empty_snapshot-IsSound k)
        | inr (items, a) ↦ elim (Option-cases (normalize_cells unchecked k items)) [
          | inl b ↦ rw (e, a, b, normalize_snapshot) tt
          | inr (r, b) ↦
              rw (e, a, b, normalize_snapshot) (assemble_snapshot-IsSound (fields_of v) r.1)
        ]
      ]
    ]

pub parse_workspace_snapshot-IsSound :
    (unchecked : Unchecked) (k : ℕ) (v : Option Value)
    → SoundResult (parse_workspace_snapshot unchecked k v)
unfolding parse_workspace_snapshot
parse_workspace_snapshot-IsSound unchecked k none = empty_snapshot-IsSound k
parse_workspace_snapshot-IsSound unchecked k (some v) = normalize_snapshot-IsSound unchecked k v
