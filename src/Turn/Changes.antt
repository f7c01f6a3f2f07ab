-- ===== src/Turn/Changes.antt =====
-- src/agent/turn.ts: the changed files of a turn, against a description of one file at a time.
use jupyter_plugin_aitermina.Base.{
  Text, List, text_eq, Bool, map, find, Distinct, ◌∷◌, ◌≡◌, ◌≢◌, false, Option-cases, All,
  Bool-cases, if◌then◌else◌, true, [], inl, text_eq_iff, inr, ◌∙◌, sym, ap, refl,
}
use jupyter_plugin_aitermina.Turn.Timeline.{add_change, changes_from, derive_changes, change_of}
use jupyter_plugin_aitermina.ToolPresenter.{ToolChange}
use jupyter_plugin_aitermina.Turn.{TurnChange, TurnActivity}
use jupyter_plugin_aitermina.Turn.Totals.{
  extended, changes_of_file, summed_entry, extend_all, extend_all-summed, changes_of_file-AllOf,
}

abbrev pub is_path : Text → TurnChange → Bool
is_path path t = text_eq t.path path

abbrev pub paths : List TurnChange → List Text
paths = map λ (t : TurnChange). t.path

differs : (s t : Text) → text_eq s t ≡ false → s ≢ t
differs s t h e = let same : text_eq s t ≡ true = (text_eq_iff s t).1 e in cc

not_same : (s t u : Text) → text_eq s t ≡ false → s ≡ u → text_eq t u ≡ false
not_same s t u h e = elim (Bool-cases (text_eq t u)) [
  | inl k ↦ absurd (differs s t h (e ∙ sym ((text_eq_iff t u).0 k)))
  | inr k ↦ k
]

find-add_change :
    (path id : Text) (c : ToolChange) (ts : List TurnChange)
    → find (is_path path) (add_change id c ts) ≡ (
        if text_eq c.path path
        then extended id c (find (is_path path) ts)
        else find (is_path path) ts)
unfolding add_change
find-add_change path id c [] = elim (Bool-cases (text_eq c.path path)) [
  | inl e ↦ rw e refl
  | inr e ↦ rw e refl
]
find-add_change path id c (t ∷ ts) = elim (Bool-cases (text_eq t.path c.path)) [
  | inl e ↦
      let same : t.path ≡ c.path = (text_eq_iff t.path c.path).0 e in
      rw (e, same)
        (elim (Bool-cases (text_eq c.path path)) [ inl k ↦ rw k refl | inr k ↦ rw k refl ])
  | inr e ↦ rw e (elim (Bool-cases (text_eq t.path path)) [
    | inl k ↦
        let same : t.path ≡ path = (text_eq_iff t.path path).0 k in
        let differ : text_eq c.path path ≡ false = not_same t.path c.path path e same in
        rw (k, differ) refl
    | inr k ↦ rw k (find-add_change path id c ts)
  ])
]

find-changes_from :
    (path : Text) (ts : List TurnChange) (timeline : List TurnActivity)
    → find (is_path path) (changes_from ts timeline)
      ≡ extend_all (find (is_path path) ts) (changes_of_file path timeline)
unfolding changes_from changes_of_file
find-changes_from path ts [] = refl
find-changes_from path ts (a ∷ rest) = elim (Option-cases (change_of a)) [
  | inl e ↦ rw (e, changes_from, changes_of_file) (find-changes_from path ts rest)
  | inr (p, e) ↦
      rw (e, changes_from, changes_of_file)
        (find-changes_from path (add_change p.0 p.1 ts) rest
          ∙ ap (λ o. extend_all o (changes_of_file path rest)) (find-add_change path p.0 p.1 ts)
          ∙ elim (Bool-cases (text_eq p.1.path path)) [ inl k ↦ rw k refl | inr k ↦ rw k refl ])
]

All-paths-add_change :
    (path id : Text) (c : ToolChange) (ts : List TurnChange)
    → c.path ≢ path
    → All (λ t. t ≢ path) (paths ts)
    → All (λ t. t ≢ path) (paths (add_change id c ts))
unfolding add_change
All-paths-add_change path id c [] h k = (h, tt)
All-paths-add_change path id c (t ∷ ts) h (p, k) = elim (Bool-cases (text_eq t.path c.path)) [
  | inl e ↦ rw e (p, k)
  | inr e ↦ rw e (p, All-paths-add_change path id c ts h k)
]

Distinct-add_change :
    (id : Text) (c : ToolChange) (ts : List TurnChange)
    → Distinct (paths ts)
    → Distinct (paths (add_change id c ts))
unfolding add_change
Distinct-add_change id c [] h = (tt, tt)
Distinct-add_change id c (t ∷ ts) (p, h) = elim (Bool-cases (text_eq t.path c.path)) [
  | inl e ↦ rw e (p, h)
  | inr e ↦
      let other : c.path ≢ t.path = λ k. differs t.path c.path e (sym k) in
      rw e (All-paths-add_change t.path id c ts other p, Distinct-add_change id c ts h)
]

Distinct-changes_from :
    (ts : List TurnChange) (timeline : List TurnActivity)
    → Distinct (paths ts)
    → Distinct (paths (changes_from ts timeline))
unfolding changes_from
Distinct-changes_from ts [] h = h
Distinct-changes_from ts (a ∷ rest) h = elim (Option-cases (change_of a)) [
  | inl e ↦ rw (e, changes_from) (Distinct-changes_from ts rest h)
  | inr (p, e) ↦
      rw (e, changes_from)
        (Distinct-changes_from (add_change p.0 p.1 ts) rest (Distinct-add_change p.0 p.1 ts h))
]

-- The changed files of a turn are listed once each. A file that no activity changes has no entry;
-- that of another has, of its own changes, the sum of the counts that are given, or none when none is
-- given, and the ids of the activities in their order.
pub derive_changes-entry :
    (timeline : List TurnActivity)
    → Distinct (paths (derive_changes timeline))
      × ((path : Text)
          → find (is_path path) (derive_changes timeline)
            ≡ summed_entry path (changes_of_file path timeline))
unfolding derive_changes
derive_changes-entry timeline = (
  Distinct-changes_from [] timeline tt,
  λ path.
      find-changes_from path [] timeline
      ∙ extend_all-summed path (changes_of_file path timeline)
          (changes_of_file-AllOf path timeline),
)
