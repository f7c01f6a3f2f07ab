-- ===== src/Turn/Totals.antt =====
-- src/agent/turn.ts: what the changes of one file come to, said without a loop over entries.
use mathlib.Core.List.{append-nil, append_assoc}
use jupyter_plugin_aitermina.Base.{
  List, Text, Option, ℕ, none, some, All, ◌∷◌, map, [], Option-cases, ◌+◌, ◌≡◌, ap, inl,
  if◌then◌else◌, ◌∙◌, ◌++◌, text_eq, arith, inr, refl, Bool-cases, text_eq_iff,
}
use jupyter_plugin_aitermina.Turn.Timeline.{sum_nullable, change_of, first_change, merge_change}
use jupyter_plugin_aitermina.Turn.{TurnChange, TurnActivity}
use jupyter_plugin_aitermina.ToolPresenter.{ToolChange}

-- The counts that are given.
abbrev pub given_counts : List (Option ℕ) → List ℕ
given_counts [] = []
given_counts (none ∷ os) = given_counts os
given_counts (some n ∷ os) = n ∷ given_counts os

abbrev pub sum : List ℕ → ℕ
sum [] = 0
sum (n ∷ ns) = n + sum ns

-- The sum of the counts that are given; with none given there is none.
abbrev pub total_of : List ℕ → Option ℕ
total_of [] = none
total_of (n ∷ ns) = some (sum (n ∷ ns))

unfoldable pub total : List (Option ℕ) → Option ℕ
total os = total_of (given_counts os)

-- The activities that change a file, with their changes, in the order of the timeline.
unfoldable pub changes_of_file : Text → List TurnActivity → List (Text × ToolChange)
changes_of_file path [] = []
changes_of_file path (a ∷ rest) = elim (change_of a) [
  | none ↦ changes_of_file path rest
  | some (id, c) ↦
      let later = changes_of_file path rest in
      if text_eq c.path path then (id, c) ∷ later else later
]

-- The entry of a file with these changes.
unfoldable pub summed_entry : Text → List (Text × ToolChange) → Option TurnChange
summed_entry path [] = none
summed_entry path (c ∷ cs) = some (record {
  path = path;
  additions = total (map (λ x. x.1.additions) (c ∷ cs));
  deletions = total (map (λ x. x.1.deletions) (c ∷ cs));
  source_ids = map (λ x. x.0) (c ∷ cs);
})

total-sum_nullable :
    (a b : Option ℕ) (os : List (Option ℕ)) → total (sum_nullable a b ∷ os) ≡ total (a ∷ b ∷ os)
unfolding total sum_nullable
total-sum_nullable none none os = refl
total-sum_nullable none (some n) os = refl
total-sum_nullable (some m) none os = refl
total-sum_nullable (some m) (some n) os = ap some (omega arith)

total-single : (o : Option ℕ) → total (o ∷ []) ≡ o
unfolding total
total-single none = refl
total-single (some n) = ap some (omega arith)

-- What one more change makes of a file's entry, and what several do.
abbrev pub extended : Text → ToolChange → Option TurnChange → Option TurnChange
extended id c none = some (first_change id c)
extended id c (some t) = some (merge_change id c t)

abbrev pub extend_all : Option TurnChange → List (Text × ToolChange) → Option TurnChange
extend_all entry [] = entry
extend_all entry (x ∷ xs) = extend_all (extended x.0 x.1 entry) xs

-- An entry with further changes.
abbrev pub absorbed : TurnChange → List (Text × ToolChange) → TurnChange
absorbed t cs = record t {
  additions = total (t.additions ∷ map (λ x. x.1.additions) cs);
  deletions = total (t.deletions ∷ map (λ x. x.1.deletions) cs);
  source_ids = t.source_ids ++ map (λ x. x.0) cs;
}

extend_all-absorbed :
    (t : TurnChange) (cs : List (Text × ToolChange)) → extend_all (some t) cs ≡ some (absorbed t cs)
extend_all-absorbed t [] =
    rw (total-single t.additions, total-single t.deletions, append-nil t.source_ids) refl
extend_all-absorbed t (x ∷ cs) =
    extend_all-absorbed (merge_change x.0 x.1 t) cs
    ∙ rw
        (
          total-sum_nullable t.additions x.1.additions (map (λ y. y.1.additions) cs),
          total-sum_nullable t.deletions x.1.deletions (map (λ y. y.1.deletions) cs),
          append_assoc t.source_ids (x.0 ∷ []) (map (λ y. y.0) cs),
        )
        refl

-- All changes are of one file.
abbrev pub AllOf : Text → List (Text × ToolChange) → Type 0
AllOf path = All λ x. x.1.path ≡ path

pub extend_all-summed :
    (path : Text) (cs : List (Text × ToolChange))
    → AllOf path cs
    → extend_all none cs ≡ summed_entry path cs
unfolding summed_entry
extend_all-summed path [] h = refl
extend_all-summed path (x ∷ cs) (p, h) =
    extend_all-absorbed (first_change x.0 x.1) cs
    ∙ ap (λ s. some (record (absorbed (first_change x.0 x.1) cs) { path = s })) p

pub changes_of_file-AllOf :
    (path : Text) (timeline : List TurnActivity) → AllOf path (changes_of_file path timeline)
unfolding changes_of_file
changes_of_file-AllOf path [] = tt
changes_of_file-AllOf path (a ∷ rest) = elim (Option-cases (change_of a)) [
  | inl e ↦ rw (e, changes_of_file) (changes_of_file-AllOf path rest)
  | inr (x, e) ↦
      rw (e, changes_of_file)
        (elim (Bool-cases (text_eq x.1.path path)) [
          | inl k ↦ rw k ((text_eq_iff x.1.path path).0 k, changes_of_file-AllOf path rest)
          | inr k ↦ rw k (changes_of_file-AllOf path rest)
        ])
]
