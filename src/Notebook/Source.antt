-- ===== src/Notebook/Source.antt =====
-- src/agent/notebook.ts: how the source of a cell decides what is run.
use jupyter_plugin_aitermina.Base.{
  Text, Bool, trim, Option, ◌∷◌, false, trim_start, if◌then◌else◌, not, ◌==◌, truthy, [], none,
  some,
}
use jupyter_plugin_aitermina.Protocol.{WorkspaceMode, command, ai}
use jupyter_plugin_aitermina.Notebook.{is_ai}

-- `/^\s*!/`: white space and an exclamation mark.
abbrev pub starts_with_bang : Text → Bool
starts_with_bang [] = false
starts_with_bang (c ∷ s) = c == b'!'

unfoldable pub is_shell_escape_source : Text → Bool
is_shell_escape_source source = starts_with_bang (trim_start source)

-- `/^\s*!\s*(.*)$/s` on the trimmed source; without a match the trimmed source.
abbrev pub after_bang : Text → Text → Text
after_bang whole [] = whole
after_bang whole (c ∷ s) = if c == b'!' then trim_start s else whole

unfoldable pub strip_shell_escape : Text → Text
strip_shell_escape source = after_bang (trim source) (trim_start (trim source))

pub record Execution : Type 0 where
  pub kind : WorkspaceMode
  pub execution_source : Text

unfoldable pub resolve_run_execution : Text → WorkspaceMode → Option Execution
unfolding is_shell_escape_source strip_shell_escape
resolve_run_execution source preferred =
    let trimmed = trim source in
    if not (truthy trimmed)
    then none
    else if is_shell_escape_source trimmed
    then if not (truthy (strip_shell_escape trimmed))
      then none
      else some (record { kind = command; execution_source = strip_shell_escape trimmed })
    else if not (is_ai preferred)
    then some (record { kind = command; execution_source = trimmed })
    else some (record { kind = ai; execution_source = trimmed })
