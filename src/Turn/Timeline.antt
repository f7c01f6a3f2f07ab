-- ===== src/Turn/Timeline.antt =====
-- src/agent/turn.ts: the activities of a turn and what they say of failures and of changed files.
use jupyter_plugin_aitermina.Turn.{
  TurnActivity, NoticeKind, TurnDiagnostic, NoticeStatus, ToolActivity, Tone, NoticeActivity,
  TurnChange, text_activity, notice_activity, notice_started, thinking_activity, notice_ok,
  tool_activity, notice_failed, warning_tone, error_tone, install_notice, denied_notice,
  error_notice, notice_error, unknown_notice,
}
use jupyter_plugin_aitermina.Base.{
  true, false, Text, Option, List, codes, none, [], ℕ, ◌++◌, ◌∷◌, some, if◌then◌else◌, listed,
  text_eq, ◌+◌,
}
use jupyter_plugin_aitermina.Protocol.{
  InstallStatus, ErrorCode, ChatBlock, user_block, text_block, config, thinking_block, tool_block,
  begun, install_block, ok, denied_block, error_block,
}
use jupyter_plugin_aitermina.ToolPresenter.{ToolChange}
use jupyter_plugin_aitermina.ToolPresenter.Formats.{Doubles, or_else}
use jupyter_plugin_aitermina.ToolPresenter.Presenting.{is_tool_error, present_tool}

abbrev pub activity_id : TurnActivity → Text
activity_id (text_activity id block text) = id
activity_id (thinking_activity id block status) = id
activity_id (tool_activity a) = a.id
activity_id (notice_activity a) = a.id

-- `activity-${block.id}`
abbrev pub id_of_block : Text → Text
id_of_block id = codes "activity-" ++ id

abbrev pub notice : NoticeKind → Text → NoticeStatus → Text → Text → Option ErrorCode → TurnActivity
notice kind id status title detail code = notice_activity (record {
  kind = kind;
  id = id_of_block id;
  block_id = id;
  status = status;
  title = title;
  detail = detail;
  code = code;
})

abbrev pub install_notice_status : InstallStatus → NoticeStatus
install_notice_status begun = notice_started
install_notice_status ok = notice_ok
install_notice_status InstallStatus.failed = notice_failed

abbrev pub error_title : Option ErrorCode → Text
error_title (some config) = codes "Configuration error"
error_title code = codes "Error"

module _ (doubles : Doubles) where
  unfoldable pub activities_of_block : ChatBlock → List TurnActivity
  unfolding present_tool
  activities_of_block (user_block id text) = []
  activities_of_block (text_block id text message) = text_activity (id_of_block id) id text ∷ []
  activities_of_block (thinking_block id status) = thinking_activity (id_of_block id) id status ∷ []
  activities_of_block (tool_block b) =
      tool_activity (record {
        id = id_of_block b.id;
        block_id = b.id;
        name = b.name;
        status = b.status;
        input = b.input;
        output = b.output;
        duration_ms = b.duration_ms;
        presentation = present_tool doubles b;
      })
      ∷ []
  activities_of_block (install_block id command_text status detail) =
      notice install_notice id (install_notice_status status) (codes "Install " ++ command_text)
        detail none
      ∷ []
  activities_of_block (denied_block id command_text reason) =
      notice denied_notice id notice_failed (codes "Denied: " ++ command_text) reason none ∷ []
  activities_of_block (error_block id message code) =
      notice error_notice id notice_error (error_title code) message code ∷ []

  unfoldable pub timeline_from_blocks : List ChatBlock → List TurnActivity
  unfolding activities_of_block
  timeline_from_blocks [] = []
  timeline_from_blocks (b ∷ bs) = activities_of_block b ++ timeline_from_blocks bs

-- The id and the text of a text.
unfoldable pub text_of_activity : TurnActivity → Option (Text × Text)
text_of_activity (text_activity id block shown) = some (id, shown)
text_of_activity (thinking_activity id block status) = none
text_of_activity (tool_activity a) = none
text_of_activity (notice_activity a) = none

-- `lastActivity(timeline, 'text')`
unfoldable pub last_text : List TurnActivity → Option (Text × Text)
unfolding text_of_activity
last_text [] = none
last_text (a ∷ rest) = elim (last_text rest) [ some found ↦ some found | none ↦ text_of_activity a ]

-- `lastActivity(timeline, 'tool')`
unfoldable pub last_tool : List TurnActivity → Option ToolActivity
last_tool [] = none
last_tool (a ∷ rest) = elim (last_tool rest) [
  | some found ↦ some found
  | none ↦ elim a [
    | text_activity id block text ↦ none
    | thinking_activity id block status ↦ none
    | tool_activity t ↦ some t
    | notice_activity t ↦ none
  ]
]

abbrev pub diagnostic : Text → Tone → Text → Text → TurnDiagnostic
diagnostic id tone title detail = record {
  id = codes "diagnostic-" ++ id;
  activity_id = id;
  tone = tone;
  title = title;
  detail = detail;
}

abbrev pub notice_diagnostic : NoticeKind → NoticeActivity → Option TurnDiagnostic
notice_diagnostic install_notice a = elim a.status [
  | notice_failed ↦
      some (diagnostic a.id warning_tone (codes "Installation failed") (or_else a.detail a.title))
  | _ ↦ none
]
notice_diagnostic denied_notice a =
    some (diagnostic a.id warning_tone (codes "Action denied") a.detail)
notice_diagnostic error_notice a = some (diagnostic a.id error_tone a.title a.detail)
notice_diagnostic unknown_notice a = none

-- The diagnostic that an activity gives rise to.
unfoldable pub diagnostic_of : TurnActivity → Option TurnDiagnostic
diagnostic_of (text_activity id block text) = none
diagnostic_of (thinking_activity id block status) = none
diagnostic_of (tool_activity a) =
    if is_tool_error a.status
    then some (
        diagnostic a.id error_tone (a.presentation.title ++ codes " failed")
          (or_else a.presentation.preview a.presentation.detail))
    else none
diagnostic_of (notice_activity a) = notice_diagnostic a.kind a

-- `${diagnostic.title}\n${diagnostic.detail}`
abbrev pub diagnostic_key : TurnDiagnostic → Text
diagnostic_key d = d.title ++ (10 ∷ d.detail)

-- The loop of `deriveDiagnostics`; the first argument is `seen`.
unfoldable pub diagnostics_from : List Text → List TurnActivity → List TurnDiagnostic
unfolding diagnostic_of
diagnostics_from seen [] = []
diagnostics_from seen (a ∷ rest) = elim (diagnostic_of a) [
  | none ↦ diagnostics_from seen rest
  | some d ↦ elim (listed (diagnostic_key d) seen) [
    | true ↦ diagnostics_from seen rest
    | false ↦ d ∷ diagnostics_from (seen ++ diagnostic_key d ∷ []) rest
  ]
]

unfoldable pub derive_diagnostics : List TurnActivity → List TurnDiagnostic
unfolding diagnostics_from
derive_diagnostics timeline = diagnostics_from [] timeline

unfoldable pub sum_nullable : Option ℕ → Option ℕ → Option ℕ
sum_nullable none none = none
sum_nullable none (some n) = some n
sum_nullable (some m) none = some m
sum_nullable (some m) (some n) = some (m + n)

-- The change of a file by an activity.
unfoldable pub change_of : TurnActivity → Option (Text × ToolChange)
change_of (text_activity id block text) = none
change_of (thinking_activity id block status) = none
change_of (tool_activity a) = elim a.presentation.change [ none ↦ none | some c ↦ some (a.id, c) ]
change_of (notice_activity a) = none

abbrev pub merge_change : Text → ToolChange → TurnChange → TurnChange
merge_change id c t = record t {
  additions = sum_nullable t.additions c.additions;
  deletions = sum_nullable t.deletions c.deletions;
  source_ids = t.source_ids ++ id ∷ [];
}

abbrev pub first_change : Text → ToolChange → TurnChange
first_change id c = record {
  path = c.path;
  additions = c.additions;
  deletions = c.deletions;
  source_ids = id ∷ [];
}

-- The map of `deriveChanges`, its values in the order of insertion.
unfoldable pub add_change : Text → ToolChange → List TurnChange → List TurnChange
unfolding sum_nullable
add_change id c [] = first_change id c ∷ []
add_change id c (t ∷ ts) =
    if text_eq t.path c.path then merge_change id c t ∷ ts else t ∷ add_change id c ts

unfoldable pub changes_from : List TurnChange → List TurnActivity → List TurnChange
unfolding add_change
changes_from changes [] = changes
changes_from changes (a ∷ rest) = elim (change_of a) [
  | none ↦ changes_from changes rest
  | some (id, c) ↦ changes_from (add_change id c changes) rest
]

unfoldable pub derive_changes : List TurnActivity → List TurnChange
unfolding changes_from
derive_changes timeline = changes_from [] timeline
