-- ===== src/Document/Inputs.antt =====
-- src/agent/document.ts: a stored input is a command exactly when its source says so.
use jupyter_plugin_aitermina.Protocol.{WorkspaceMode, command, ai}
use jupyter_plugin_aitermina.Notebook.Source.{is_shell_escape_source}
use jupyter_plugin_aitermina.Document.Normalizing.{normalize_input, is_command}
use jupyter_plugin_aitermina.Base.{
  Text, trim_start, Bool, ◌≡◌, is_space, true, false, Bool-cases, inl, ◌∷◌, sym, refl, inr,
}

-- The kind and the source agree.
pub record IsNormal (kind : WorkspaceMode) (source : Text) : Type 0 where
  pub agrees : is_command kind ≡ is_shell_escape_source source

-- A source that begins with an exclamation mark is a shell escape.
bang-escape : (source : Text) → is_shell_escape_source (b'!' ∷ source) ≡ true
unfolding is_shell_escape_source trim_start is_space
bang-escape source = refl

pub normalize_input-escape :
    (source : Text) (c : Bool)
    → is_shell_escape_source source ≡ true
    → normalize_input source c ≡ record { kind = command; source = source }
unfolding normalize_input
normalize_input-escape source true e = rw e refl
normalize_input-escape source false e = rw e refl

pub normalize_input-command :
    (source : Text)
    → is_shell_escape_source source ≡ false
    → normalize_input source true ≡ record { kind = command; source = b'!' ∷ source }
unfolding normalize_input
normalize_input-command source e = rw e refl

pub normalize_input-ai :
    (source : Text)
    → is_shell_escape_source source ≡ false
    → normalize_input source false ≡ record { kind = ai; source = source }
unfolding normalize_input
normalize_input-ai source e = rw e refl

-- However a kind and a source stood in a document, the input that is made of them is a command
-- exactly when its source begins with an exclamation mark, and making an input of it again changes
-- nothing.
pub normalize_input-IsNormal :
    (source : Text) (c : Bool)
    → let r = normalize_input source c in
      IsNormal r.kind r.source × (normalize_input r.source (is_command r.kind) ≡ r)
normalize_input-IsNormal source c = elim (Bool-cases (is_shell_escape_source source)) [
  | inl e ↦
      rw (normalize_input-escape source c e)
        (record { agrees = sym e }, normalize_input-escape source true e)
  | inr e ↦ elim (Bool-cases c) [
    | inl k ↦
        rw (k, normalize_input-command source e)
          (
            record { agrees = sym (bang-escape source) },
            normalize_input-escape (b'!' ∷ source) true (bang-escape source),
          )
    | inr k ↦
        rw (k, normalize_input-ai source e) (record { agrees = sym e }, normalize_input-ai source e)
  ]
]
