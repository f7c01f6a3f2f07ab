-- ===== src/Document/References.antt =====
-- src/agent/document.ts: which session references and session ids a document may hold.
use jupyter_plugin_aitermina.Base.{
  ℕ, Text, Option, Bool, some, if◌then◌else◌, leb, any, false, not, none, length, ◌==◌, text_eq,
  ◌||◌, ◌∷◌, ◌&&◌, codes, ltb, map, ◌+◌, trim, [],
}
use jupyter_plugin_aitermina.Document.{Workspace, AgentSessionReference}
use jupyter_plugin_aitermina.Json.{Value, str, obj, get}
use jupyter_plugin_aitermina.ToolPresenter.Formats.{starts_with}

abbrev pub is_control : ℕ → Bool
is_control c = leb c 31 || c == 127

unfoldable pub has_control_character : Text → Bool
has_control_character s = any is_control s

-- `/[/\\]/`
abbrev pub is_path_separator : ℕ → Bool
is_path_separator c = c == 47 || c == 92

-- `s.includes('..')`
unfoldable pub includes_dots : Text → Bool
unfolding starts_with
includes_dots [] = false
includes_dots (c ∷ s) = starts_with (codes "..") (c ∷ s) || includes_dots s

abbrev pub is_acceptable : Text → Bool
is_acceptable id =
    not (length id == 0 || ltb 256 (length id))
    && text_eq id (trim id)
    && not (has_control_character id)
    && not (any is_path_separator id || includes_dots id)

abbrev pub is_dsh : Option Value → Bool
is_dsh (some (str s)) = text_eq s (codes "dsh")
is_dsh v = false

abbrev pub reference_of : Text → Option AgentSessionReference
reference_of id = if is_acceptable id then some (record { session_id = id }) else none

abbrev pub reference_of_value : Option Value → Option AgentSessionReference
reference_of_value (some (str id)) = reference_of id
reference_of_value v = none

unfoldable pub normalize_agent_session_reference : Option Value → Option AgentSessionReference
unfolding has_control_character includes_dots
normalize_agent_session_reference (some (obj fields)) =
    if is_dsh (get (codes "engine") fields)
    then reference_of_value (get (codes "sessionId") fields)
    else none
normalize_agent_session_reference v = none

-- `setAgentSessionReference`, with a reference of the declared type.
unfoldable pub set_agent_session_reference : Option AgentSessionReference → Workspace → Workspace
unfolding has_control_character includes_dots
set_agent_session_reference none w = record w { reference = none }
set_agent_session_reference (some r) w = record w { reference = reference_of r.session_id }

unfoldable pub get_agent_session_reference : Workspace → Option AgentSessionReference
get_agent_session_reference w = w.reference

unfoldable pub get_resumable_dsh_session_reference : Workspace → Option AgentSessionReference
unfolding get_agent_session_reference
get_resumable_dsh_session_reference w = get_agent_session_reference w

-- `toLowerCase` of a code unit of ASCII. The ids that pass have no other: no other code unit has a
-- lower case among those that the pattern allows.
abbrev pub to_lower : ℕ → ℕ
to_lower c = if leb 65 c && leb c 90 then c + 32 else c

abbrev pub is_hex : ℕ → Bool
is_hex c = (leb 48 c && leb c 57) || (leb 97 c && leb c 102)

-- The pattern of five groups, by the index of the code unit.
abbrev pub is_dash_index : ℕ → Bool
is_dash_index i = i == 8 || i == 13 || i == 18 || i == 23

unfoldable pub matches_uuid : ℕ → Text → Bool
matches_uuid i [] = i == 36
matches_uuid i (c ∷ s) = (if is_dash_index i then c == 45 else is_hex c) && matches_uuid (i + 1) s

unfoldable pub normalize_session_text : Text → Option Text
unfolding matches_uuid
normalize_session_text s =
    if length s == 36 && matches_uuid 0 (map to_lower s) then some (map to_lower s) else none

unfoldable pub normalize_agent_session_id : Option Value → Option Text
unfolding normalize_session_text
normalize_agent_session_id (some (str s)) = normalize_session_text s
normalize_agent_session_id v = none

-- `normalizeAgentSessionId` of the id of a notebook.
abbrev pub normalize_session? : Option Text → Option Text
normalize_session? none = none
normalize_session? (some s) = normalize_session_text s
