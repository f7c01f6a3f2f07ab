-- ===== src/ToolPresenter.antt =====
-- src/agent/tool-presenter.ts: the shape of a tool's presentation.
pub mod Formats
pub mod Presenting
pub mod Previews
mod Tests
use jupyter_plugin_aitermina.Base.{Text, Option, ℕ}

pub data ToolCategory : Type 0 where
  read search_tool shell mutation unknown_tool : ToolCategory

-- `null` counts are `none`.
pub record ToolChange : Type 0 where
  pub path : Text
  pub additions : Option ℕ
  pub deletions : Option ℕ

pub record ToolPresentation : Type 0 where
  pub category : ToolCategory
  pub title : Text
  pub detail : Text
  pub preview : Text
  pub hidden_line_count : ℕ
  pub hidden_character_count : ℕ
  pub change : Option ToolChange
