-- ===== src/ToolPresenter/Presenting.antt =====
-- src/agent/tool-presenter.ts: how a tool block is summed up for the reader.
use jupyter_plugin_aitermina.Base.{
  ℕ, Text, Bool, Option, true, if◌then◌else◌, false, ◌==◌, [], text_eq, decimal, codes, none, ◌++◌,
  ◌||◌, length, some, ◌∷◌,
}
use jupyter_plugin_aitermina.ToolPresenter.{
  ToolCategory, ToolChange, ToolPresentation, unknown_tool, read, search_tool, mutation, shell,
}
use jupyter_plugin_aitermina.Protocol.{ToolStatus, ToolBlock, tool_error}
use jupyter_plugin_aitermina.ToolPresenter.Formats.{
  Doubles, output_meta, make_preview, compact_path, truncate, Preview, non_empty_lines,
  count_diff_lines, or_else, count_grep_files, format_change, string_value, as_record, join_given,
  first_line,
}
use jupyter_plugin_aitermina.Json.{get}

abbrev pub presentation :
    ToolCategory → Text → Text → Option ToolChange → Preview → ToolPresentation
presentation category title detail change p = record {
  category = category;
  title = title;
  detail = detail;
  preview = p.preview;
  hidden_line_count = p.hidden_line_count;
  hidden_character_count = p.hidden_character_count;
  change = change;
}

-- `${n} what` when there are any.
abbrev pub counted : ℕ → Text → Text
counted n what = if n == 0 then [] else decimal n ++ what

abbrev pub is_tool_error : ToolStatus → Bool
is_tool_error tool_error = true
is_tool_error s = false

module _ (doubles : Doubles) where
  unfoldable pub present_read : ToolBlock → Preview → ToolPresentation
  unfolding output_meta compact_path
  present_read b =
      let path =
        or_else (string_value (get (codes "file_path") (as_record b.input))) (codes "file") in
      presentation read (codes "Read " ++ compact_path path) (output_meta doubles b) none

  unfoldable pub present_glob : ToolBlock → Preview → ToolPresentation
  unfolding output_meta truncate non_empty_lines
  present_glob b =
      let pattern_text =
        or_else (string_value (get (codes "pattern") (as_record b.input))) (codes "*") in
      let matches = length (non_empty_lines b.output) in
      presentation search_tool (codes "Glob " ++ truncate pattern_text)
        (join_given (counted matches (codes " files") ∷ output_meta doubles b ∷ [])) none

  unfoldable pub present_grep : ToolBlock → Preview → ToolPresentation
  unfolding output_meta truncate non_empty_lines count_grep_files
  present_grep b =
      let pattern_text = string_value (get (codes "pattern") (as_record b.input)) in
      let matches = non_empty_lines b.output in
      let files = count_grep_files matches in
      presentation search_tool (codes "Grep " ++ truncate (or_else pattern_text (codes "pattern")))
        (join_given (
          counted (length matches) (codes " matches")
          ∷ counted files (codes " files")
          ∷ output_meta doubles b
          ∷ []))
        none

  unfoldable pub present_bash : ToolBlock → Preview → ToolPresentation
  unfolding output_meta truncate
  present_bash b =
      let command_text =
        or_else (string_value (get (codes "command") (as_record b.input)))
          (string_value (some b.input)) in
      presentation shell
        (codes "Bash " ++ truncate (or_else (first_line command_text) (codes "command")))
        (output_meta doubles b) none

  -- `Edit` and `Write`
  unfoldable pub present_mutation : ToolBlock → Preview → ToolPresentation
  unfolding output_meta compact_path count_diff_lines format_change
  present_mutation b =
      let path =
        or_else (string_value (get (codes "file_path") (as_record b.input))) (codes "file") in
      let change : ToolChange = record {
        path = path;
        additions = count_diff_lines b.output 43;
        deletions = count_diff_lines b.output 45;
      } in
      presentation mutation (b.name ++ (codes " " ++ compact_path path))
        (join_given (format_change change ∷ output_meta doubles b ∷ [])) (some change)

  unfoldable pub present_unknown : ToolBlock → Preview → ToolPresentation
  unfolding output_meta
  present_unknown b =
      presentation unknown_tool (or_else b.name (codes "Tool")) (output_meta doubles b) none

  unfoldable pub present_tool : ToolBlock → ToolPresentation
  unfolding make_preview present_read present_glob present_grep present_bash present_mutation
      present_unknown
  present_tool b =
      let p = make_preview b.output (is_tool_error b.status) in
      if text_eq b.name (codes "Read")
      then present_read b p
      else if text_eq b.name (codes "Glob")
      then present_glob b p
      else if text_eq b.name (codes "Grep")
      then present_grep b p
      else if text_eq b.name (codes "Bash")
      then present_bash b p
      else if text_eq b.name (codes "Edit") || text_eq b.name (codes "Write")
      then present_mutation b p
      else present_unknown b p
