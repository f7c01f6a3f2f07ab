-- ===== src/Keys/HistoryKeys.antt =====
-- src/agent/keys.ts: when an arrow key walks the history.
use jupyter_plugin_aitermina.Base.{
  index_of, index_of_from, last_index_of, ℕ, Text, ◌≡◌, none, true, some, false, ◌↔◌, ◌∷◌, All,
  codes, ◌≢◌, arith, drop, take, suc, [], zero, ◌-◌, text_eq_iff, subst, refl,
}
use jupyter_plugin_aitermina.Keys.{
  KeyStroke, map_history_key, HistoryKeyContext, newline, history_previous, history_next,
}

index_of-none : (c : ℕ) (s : Text) → (index_of c s ≡ none) ↔ All (λ x. x ≢ c) s
unfolding index_of
index_of-none c [] = ground arith
index_of-none c (x ∷ s) = ground (arith, index_of-none c s)

index_of_from-none :
    (c : ℕ) (s : Text) (from : ℕ) → (index_of_from c s from ≡ none) ↔ All (λ x. x ≢ c) (drop from s)
unfolding index_of_from
index_of_from-none c s from = ground (arith, index_of-none c (drop from s))

last_index_of-none :
    (c : ℕ) (s : Text) (from : ℕ)
    → (last_index_of c s from ≡ none) ↔ All (λ x. x ≢ c) (take (suc from) s)
unfolding last_index_of
last_index_of-none c [] from = ground arith
last_index_of-none c (x ∷ s) zero = ground arith
last_index_of-none c (x ∷ s) (suc from) = ground (arith, last_index_of-none c s from)

-- The caret may walk: an editable field, no modifier key and no selection.
pub record MayWalk (stroke : KeyStroke) (context : HistoryKeyContext) : Type 0 where
  pub editable : context.editable ≡ true
  pub no_shift : stroke.shift_key ≡ false
  pub no_ctrl : stroke.ctrl_key ≡ false
  pub no_meta : stroke.meta_key ≡ false
  pub caret : context.selection_start ≡ context.selection_end

-- ArrowUp walks back exactly when the caret may walk and no line break stands before it; at the
-- very start of the text the first code unit must be no line break either.
pub history_previous_iff :
    (stroke : KeyStroke) (context : HistoryKeyContext)
    → (map_history_key stroke context ≡ some history_previous) ↔ (
        MayWalk stroke context
        × (stroke.key ≡ codes "ArrowUp")
        × All (λ x. x ≢ newline) (take (suc (context.selection_start - 1)) context.value))
unfolding map_history_key
history_previous_iff stroke context = ground (
  arith,
  text_eq_iff stroke.key (codes "ArrowUp"),
  last_index_of-none newline context.value (context.selection_start - 1),
)

-- ArrowDown walks forward exactly when the caret may walk and no line break stands behind it.
pub history_next_iff :
    (stroke : KeyStroke) (context : HistoryKeyContext)
    → (map_history_key stroke context ≡ some history_next) ↔ (
        MayWalk stroke context
        × (stroke.key ≡ codes "ArrowDown")
        × All (λ x. x ≢ newline) (drop context.selection_end context.value))
unfolding map_history_key
history_next_iff stroke context = ground (
  arith,
  text_eq_iff stroke.key (codes "ArrowUp"),
  text_eq_iff stroke.key (codes "ArrowDown"),
  index_of_from-none newline context.value context.selection_end,
)

-- With the caret at the start of a text that begins with a line break, where nothing stands before
-- the caret, ArrowUp does not walk back.
pub leading_newline_blocks :
    (stroke : KeyStroke) (context : HistoryKeyContext) (rest : Text)
    → context.value ≡ newline ∷ rest
    → context.selection_start ≡ 0
    → map_history_key stroke context ≢ some history_previous
leading_newline_blocks stroke context rest e z h =
    let (_, _, clear) = (history_previous_iff stroke context).0 h in
    let clear' : All (λ x. x ≢ newline) (take 1 (newline ∷ rest)) =
      subst (λ n. All (λ x. x ≢ newline) (take (suc (n - 1)) (newline ∷ rest))) z
        (subst (λ v. All (λ x. x ≢ newline) (take (suc (context.selection_start - 1)) v)) e
          clear) in
    clear'.0 refl
