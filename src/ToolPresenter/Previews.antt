-- ===== src/ToolPresenter/Previews.antt =====
-- src/agent/tool-presenter.ts: what a preview shows of the output and what it counts as hidden.
use jupyter_plugin_aitermina.Base.{
  ℕ, Bool, List, Text, take_last, false, true, [], length, Bool-cases, All, arith, ◌++◌, take, drop,
  ltb, join, IsPiece, split, ◌≡◌, ◌≤◌, pieces, length-drop, min, All-drop, suc, ◌∙◌, ◌∷◌, refl, ap,
  subst, join-drop, pieces-join, split-IsPiece, inl, ◌-◌, sym, length-append, length-take,
  join-take, All-take, join-split, ◌+◌, if◌then◌else◌, zero, pieces-append, inr, pieces-pos,
}
use mathlib.Core.List.{append_assoc, append-nil}
use jupyter_plugin_aitermina.ToolPresenter.Formats.{
  Preview, select_units, select_lines, make_preview, preview_character_limit, preview_line_limit,
}

-- A text as the beginning or, on the other side, the end of another.
abbrev pub IsPart : Bool → Text → Text → Type 0
IsPart true part text = (rest : Text) × (rest ++ part ≡ text)
IsPart false part text = (rest : Text) × (part ++ rest ≡ text)

unfoldable pub IsExcerpt : Bool → Text → Preview → Type 0
IsExcerpt prefer_tail output p =
    IsPart prefer_tail p.preview output
    × (length p.preview ≤ preview_character_limit)
    × (pieces 10 p.preview ≤ preview_line_limit)
    × (length p.preview + p.hidden_character_count ≡ length output)
    × (min preview_line_limit (pieces 10 output) + p.hidden_line_count ≡ pieces 10 output)

IsPart-trans : (tail : Bool) (a b c : Text) → IsPart tail a b → IsPart tail b c → IsPart tail a c
IsPart-trans true a b c (r, e) (q, k) = (q ++ r, append_assoc q r a ∙ ap (λ z. q ++ z) e ∙ k)
IsPart-trans false a b c (r, e) (q, k) = (r ++ q, sym (append_assoc a r q) ∙ ap (λ z. z ++ q) e ∙ k)

take-IsPart : (n : ℕ) (s : Text) → IsPart false (take n s) s
take-IsPart zero s = (s, refl)
take-IsPart (suc n) [] = ([], refl)
take-IsPart (suc n) (x ∷ s) = let (r, e) = take-IsPart n s in (r, ap (◌∷◌ x) e)

drop-IsPart : (n : ℕ) (s : Text) → IsPart true (drop n s) s
drop-IsPart zero s = ([], refl)
drop-IsPart (suc n) [] = ([], refl)
drop-IsPart (suc n) (x ∷ s) = let (r, e) = drop-IsPart n s in (x ∷ r, ap (◌∷◌ x) e)

whole-IsPart : (tail : Bool) (s : Text) → IsPart tail s s
whole-IsPart true s = ([], refl)
whole-IsPart false s = ([], append-nil s)

-- A part is no longer than the whole and has no more lines.
IsPart-le :
    (tail : Bool) (a b : Text)
    → IsPart tail a b
    → (length a ≤ length b) × (pieces 10 a ≤ pieces 10 b)
IsPart-le true a b (r, e) = (
  subst (λ z. length a ≤ length z) e (omega (arith, length-append r a)),
  subst (λ z. pieces 10 a ≤ pieces 10 z) e (omega (arith, pieces-append 10 r a, pieces-pos 10 r)),
)
IsPart-le false a b (r, e) = (
  subst (λ z. length a ≤ length z) e (omega (arith, length-append a r)),
  subst (λ z. pieces 10 a ≤ pieces 10 z) e (omega (arith, pieces-append 10 a r, pieces-pos 10 r)),
)

select_units-IsPart : (tail : Bool) (s : Text) → IsPart tail (select_units tail s) s
unfolding select_units take_last
select_units-IsPart tail s = elim (Bool-cases (ltb preview_character_limit (length s))) [
  | inl e ↦
      rw e (elim tail as (λ t. IsPart t (if t then drop (length s - 4000) s else take 4000 s) s) [
        | true ↦ drop-IsPart (length s - 4000) s
        | false ↦ take-IsPart 4000 s
      ])
  | inr e ↦ rw e (whole-IsPart tail s)
]

not_below : {n m : ℕ} → ltb n m ≡ false → m ≤ n
not_below e = ground arith

select_units-bound : (tail : Bool) (s : Text) → length (select_units tail s) ≤ 4000
unfolding select_units take_last
select_units-bound tail s = elim (Bool-cases (ltb preview_character_limit (length s))) [
  | inl e ↦
      rw e
        (elim tail as (λ t. length (if t then drop (length s - 4000) s else take 4000 s) ≤ 4000) [
          | true ↦ omega (arith, length-drop (length s - 4000) s)
          | false ↦ omega (arith, length-take 4000 s)
        ])
  | inr e ↦ rw e (not_below e)
]

module _ (lines : List Text) where
  length-select_lines : (tail : Bool) → length (select_lines tail lines) ≡ min 12 (length lines)
  unfolding select_lines
  length-select_lines true = omega (arith, length-drop (length lines - 12) lines)
  length-select_lines false = length-take 12 lines

  select_lines-IsPart :
      (tail : Bool) → IsPart tail (join (10 ∷ []) (select_lines tail lines)) (join (10 ∷ []) lines)
  unfolding select_lines
  select_lines-IsPart true = join-drop 10 (length lines - 12) lines
  select_lines-IsPart false = join-take 10 12 lines

  All-select_lines :
      (tail : Bool) → All (IsPiece 10) lines → All (IsPiece 10) (select_lines tail lines)
  unfolding select_lines
  All-select_lines true h = All-drop (IsPiece 10) (length lines - 12) lines h
  All-select_lines false h = All-take (IsPiece 10) 12 lines h

pieces-joined :
    (ps : List Text) → All (IsPiece 10) ps → length ps ≤ 12 → pieces 10 (join (10 ∷ []) ps) ≤ 12
pieces-joined [] h k = unfold join split in omega arith
pieces-joined (p ∷ ps) h k = omega (arith, pieces-join 10 p ps h)

-- A preview is a beginning of the output, or an end of it where the tool has failed, of at most 4,000
-- code units and 12 lines, and its counts say exactly how many code units and how many lines, beyond
-- the 12, are left out.
pub make_preview-IsExcerpt :
    (output : Text) (tail : Bool) → IsExcerpt tail output (make_preview output tail)
unfolding make_preview IsExcerpt
make_preview-IsExcerpt [] tail = (
  whole-IsPart tail [],
  omega arith,
  unfold split in omega arith,
  omega arith,
  unfold split in omega arith,
)
make_preview-IsExcerpt (c ∷ s) tail =
    let lines = split 10 (c ∷ s) in
    let selected = select_lines tail lines in
    let line_preview = join (10 ∷ []) selected in
    let all_lines = All-select_lines lines tail (split-IsPiece 10 (c ∷ s)) in
    let count = length-select_lines lines tail in
    let joined : IsPart tail line_preview (c ∷ s) =
      subst (IsPart tail line_preview) (join-split 10 (c ∷ s)) (select_lines-IsPart lines tail) in
    let units = select_units-IsPart tail line_preview in
    let part =
      IsPart-trans tail (select_units tail line_preview) line_preview (c ∷ s) units joined in
    let fewer = IsPart-le tail (select_units tail line_preview) line_preview units in
    let few = pieces-joined selected all_lines (omega (arith, count)) in
    let short = IsPart-le tail (select_units tail line_preview) (c ∷ s) part in
    (
      part,
      select_units-bound tail line_preview,
      omega (arith, fewer.1, few),
      omega (arith, short.0),
      omega (arith, count),
    )
