-- ===== src/ToolPresenter/Tests.antt =====
-- src/agent/tool-presenter.ts: runs on concrete outputs.
use jupyter_plugin_aitermina.Base.{
  Text, codes, true, split, join, index_of, take_last, text_eq, ◌≡◌, some, ◌∷◌, refl, none, [],
}
use jupyter_plugin_aitermina.ToolPresenter.Previews.{IsExcerpt, make_preview-IsExcerpt}
use jupyter_plugin_aitermina.ToolPresenter.Formats.{
  make_preview, compact_path, count_diff_lines, count_grep_files, select_lines, grep_files,
  select_units, starts_with,
}

-- Two lines more than a preview shows.
abbrev long_output : Text
long_output = codes "1\n2\n3\n4\n5\n6\n7\n8\n9\n10\n11\n12\n13\n14"

make_preview-IsExcerpt_example : IsExcerpt true long_output (make_preview long_output true)
make_preview-IsExcerpt_example = make_preview-IsExcerpt long_output true

last_lines : make_preview long_output true ≡ record {
  preview = codes "3\n4\n5\n6\n7\n8\n9\n10\n11\n12\n13\n14";
  hidden_line_count = 2;
  hidden_character_count = 4;
}
unfolding make_preview select_lines select_units split join take_last
last_lines = refl

shortened : compact_path (codes "/home/me/src/main.ts") ≡ codes ".../src/main.ts"
unfolding compact_path split join take_last
shortened = refl

diff_counts :
    (count_diff_lines (codes "--- a\n+++ b\n+x\n-y\n+z") 43 ≡ some 2)
    × (count_diff_lines (codes "+x") 43 ≡ none)
unfolding count_diff_lines split starts_with
diff_counts = (refl, refl)

grep_count : count_grep_files (codes "a.ts:1: x" ∷ codes "a.ts:2: y" ∷ codes ":no" ∷ []) ≡ 1
unfolding count_grep_files grep_files index_of text_eq
grep_count = refl
