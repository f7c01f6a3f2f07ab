-- ===== src/Turn/Answers.antt =====
-- src/agent/turn.ts: the answer that a turn shows, and its timeline.
use jupyter_plugin_aitermina.Turn.Timeline.{activity_id}
use jupyter_plugin_aitermina.Base.{Text, List, truthy, All, ◌≢◌, ◌≡◌, ◌∷◌, true, []}
use jupyter_plugin_aitermina.Turn.{
  TurnActivity, text_activity, thinking_activity, tool_activity, notice_activity,
}

-- The text that stands as the outcome is not in the timeline again.
abbrev pub IsWithout : Text → List TurnActivity → Type 0
IsWithout id = All λ a. activity_id a ≢ id

-- No text stands among these.
abbrev pub IsTextless : List TurnActivity → Type 0
IsTextless [] = Unit
IsTextless (text_activity id block shown ∷ rest) = ⊥
IsTextless (thinking_activity id block status ∷ rest) = IsTextless rest
IsTextless (tool_activity t ∷ rest) = IsTextless rest
IsTextless (notice_activity n ∷ rest) = IsTextless rest

-- The id of an activity that a block gives is never empty.
abbrev pub IsNamed : TurnActivity → Type 0
IsNamed a = truthy (activity_id a) ≡ true
