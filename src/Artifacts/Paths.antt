-- ===== src/Artifacts/Paths.antt =====
-- src/agent/artifacts.ts: checkWorkspaceRelativePath.
use jupyter_plugin_aitermina.Base.{
  ℕ, Text, Bool, List, Option, any, leb, false, none, some, ◌||◌, not, split, ◌==◌, ◌&&◌, ◌∷◌,
  truthy, codes, if◌then◌else◌, [], text_eq, length,
}
use jupyter_plugin_aitermina.Document.References.{has_control_character}
use jupyter_plugin_aitermina.Artifacts.Decoding.{decode_uri_component}
use jupyter_plugin_aitermina.ToolPresenter.Formats.{starts_with}

pub data WorkspacePathRejection : Type 0 where
  missing_uri nul_byte control_character backslash absolute_path : WorkspacePathRejection
  protocol_relative scheme query_or_fragment traversal empty_segment : WorkspacePathRejection
  malformed_escape nested_escape : WorkspacePathRejection

pub data WorkspacePathCheck : Type 0 where
  accepted_path : Text → WorkspacePathCheck
  rejected_path : WorkspacePathRejection → WorkspacePathCheck

-- `s.includes(c)`
abbrev pub includes : ℕ → Text → Bool
includes c = any λ d. d == c

abbrev pub is_letter : ℕ → Bool
is_letter c = (leb 65 c && leb c 90) || (leb 97 c && leb c 122)

-- `/^[a-zA-Z]:/`
abbrev pub starts_with_drive : Text → Bool
starts_with_drive (c ∷ d ∷ s) = is_letter c && d == 58
starts_with_drive s = false

-- `/^[a-zA-Z]:[\\/]/`
abbrev pub is_windows_absolute : Text → Bool
is_windows_absolute (c ∷ d ∷ e ∷ s) = is_letter c && (d == 58 && (e == 92 || e == 47))
is_windows_absolute s = false

abbrev pub is_scheme_unit : ℕ → Bool
is_scheme_unit c = is_letter c || (leb 48 c && leb c 57) || c == 43 || c == 46 || c == 45

-- A colon after units of a scheme.
unfoldable pub scheme_rest : Text → Bool
scheme_rest [] = false
scheme_rest (c ∷ s) = c == 58 || (is_scheme_unit c && scheme_rest s)

-- `/^[a-zA-Z][a-zA-Z0-9+.-]*:/`
abbrev pub has_uri_scheme : Text → Bool
has_uri_scheme [] = false
has_uri_scheme (c ∷ s) = is_letter c && scheme_rest s

-- A test with what it rejects a path for.
abbrev pub Test : Type 0
Test = Bool × WorkspacePathRejection

-- The first test that holds decides.
unfoldable pub first_rejection : List Test → Option WorkspacePathRejection
first_rejection [] = none
first_rejection ((bad, reason) ∷ tests) = if bad then some reason else first_rejection tests

-- The tests of the locator as it came.
unfoldable pub raw_tests : Text → List Test
unfolding has_control_character starts_with scheme_rest
raw_tests uri =
    (not (truthy uri), missing_uri)
    ∷ (includes 0 uri, nul_byte)
    ∷ (has_control_character uri, control_character)
    ∷ (includes 92 uri, backslash)
    ∷ (starts_with (codes "//") uri, protocol_relative)
    ∷ (starts_with (codes "/") uri || starts_with (codes "~") uri, absolute_path)
    ∷ (is_windows_absolute uri, absolute_path)
    ∷ (has_uri_scheme uri || includes 58 uri, scheme)
    ∷ (includes 63 uri || includes 35 uri, query_or_fragment)
    ∷ []

-- The tests of the locator once it is decoded.
unfoldable pub decoded_tests : Text → List Test
unfolding has_control_character starts_with scheme_rest split
decoded_tests decoded =
    (includes 37 decoded, nested_escape)
    ∷ (includes 0 decoded, nul_byte)
    ∷ (has_control_character decoded, control_character)
    ∷ (includes 92 decoded, backslash)
    ∷ (starts_with (codes "//") decoded, protocol_relative)
    ∷ (starts_with (codes "/") decoded || starts_with (codes "~") decoded, absolute_path)
    ∷ (is_windows_absolute decoded || starts_with_drive decoded, absolute_path)
    ∷ (has_uri_scheme decoded || includes 58 decoded, scheme)
    ∷ (includes 63 decoded || includes 35 decoded, query_or_fragment)
    ∷ (any (λ segment. text_eq segment (codes "..")) (split 47 decoded), traversal)
    ∷ (any (λ segment. length segment == 0) (split 47 decoded), empty_segment)
    ∷ []

unfoldable pub check_decoded : Text → WorkspacePathCheck
unfolding first_rejection decoded_tests
check_decoded decoded = elim (first_rejection (decoded_tests decoded)) [
  | some reason ↦ rejected_path reason
  | none ↦ accepted_path decoded
]

unfoldable pub check_raw : Text → WorkspacePathCheck
unfolding first_rejection raw_tests decode_uri_component check_decoded
check_raw uri = elim (first_rejection (raw_tests uri)) [
  | some reason ↦ rejected_path reason
  | none ↦ elim (decode_uri_component uri) [
    | none ↦ rejected_path malformed_escape
    | some decoded ↦ check_decoded decoded
  ]
]

unfoldable pub check_workspace_relative_path : Option Text → WorkspacePathCheck
unfolding check_raw
check_workspace_relative_path none = rejected_path missing_uri
check_workspace_relative_path (some uri) = check_raw uri
