-- ===== src/HistoryBridge/Counts.antt =====
-- src/agent/history-bridge.ts: the cuts end with a capsule that accounts for every turn and task.
use jupyter_plugin_aitermina.Base.{
  ℕ, Bool, List, length, Option, inr, ◌≤◌, ◌≡◌, keep, true, false, ap, some, last?, Text, inl, ◌⊎◌,
  ◌∷◌, arith, true-ne-false, Bool-cases, take_last, ◌+◌, refl, not, suc, sym, map, [], length-map,
  ◌∙◌, length-take_last,
}
use jupyter_plugin_aitermina.HistoryBridge.{
  HistoryBridgeCapsule, HistoryBridgeTurn, HistoryBridgeTask,
}
use jupyter_plugin_aitermina.HistoryBridge.Building.{
  cut_outcome, cut_capsule, whole_capsule, build_history_bridge, drop_turns, drop_tasks,
  is_too_long, capsule_of, history_bridge_max_turns, without_turn, without_task, newest_alone,
  history_before, is_task_among, bridge_task, without_task_id, bridge_turn,
}
use jupyter_plugin_aitermina.Notebook.{WorkspaceCell}
use jupyter_plugin_aitermina.HistoryBridge.Tasks.{
  BackgroundTaskReference, background_task_references,
}

-- Of so many turns and tasks each is in the capsule or counted as omitted, and there are 1 to 8 turns.
pub record IsCounted (turns tasks : ℕ) (c : HistoryBridgeCapsule) : Type 0 where
  pub some_turn : 1 ≤ length c.turns
  pub few_turns : length c.turns ≤ history_bridge_max_turns
  pub of_turns : length c.turns + c.omitted_turn_count ≡ turns
  pub of_tasks : length c.tasks + c.omitted_task_count ≡ tasks

-- The turns cannot be fewer, or the capsule is short enough.
abbrev IsCut : HistoryBridgeCapsule → Type 0
IsCut c = (length c.turns ≡ 1) ⊎ (is_too_long c ≡ false)

length-keep-not :
    {A : Type 0} (p : A → Bool) (xs : List A)
    → length (keep p xs) + length (keep (λ x. not (p x)) xs) ≡ length xs
length-keep-not p [] = refl
length-keep-not p (x ∷ xs) = elim (Bool-cases (p x)) [
  | inl e ↦ rw e (omega (arith, length-keep-not p xs))
  | inr e ↦ rw e (omega (arith, length-keep-not p xs))
]

module _ (t u : HistoryBridgeTurn) (turns : List HistoryBridgeTurn) (c : HistoryBridgeCapsule) where
  drop_turns-step :
      is_too_long c ≡ true
      → drop_turns (t ∷ u ∷ turns) c ≡ drop_turns (u ∷ turns) (without_turn t (u ∷ turns) c)
  unfolding drop_turns
  drop_turns-step e = rw (e, drop_turns) refl

  drop_turns-stop : is_too_long c ≡ false → drop_turns (t ∷ u ∷ turns) c ≡ c
  unfolding drop_turns
  drop_turns-stop e = rw (e, drop_turns) refl

  without_turn-IsCounted :
      (m n : ℕ)
      → c.turns ≡ t ∷ u ∷ turns
      → IsCounted m n c
      → IsCounted m n (without_turn t (u ∷ turns) c)
  without_turn-IsCounted m n e h =
      let same : length c.turns ≡ suc (suc (length turns)) = ap length e in
      record {
        some_turn = omega arith;
        few_turns = omega (arith, h.few_turns, same);
        of_turns = omega (arith, h.of_turns, same);
        of_tasks = omega (arith, h.of_tasks, length-keep-not (is_task_among t.task_ids) c.tasks);
      }

drop_turns-IsCounted :
    (m n : ℕ) (turns : List HistoryBridgeTurn) (c : HistoryBridgeCapsule)
    → c.turns ≡ turns
    → IsCounted m n c
    → IsCounted m n (drop_turns turns c) × IsCut (drop_turns turns c)
drop_turns-IsCounted m n [] c e h =
    let none_left : length c.turns ≡ 0 = ap length e in
    absurd (omega (arith, h.some_turn, none_left))
drop_turns-IsCounted m n (t ∷ []) c e h = unfold drop_turns in (h, inl (ap length e))
drop_turns-IsCounted m n (t ∷ u ∷ turns) c e h = elim (Bool-cases (is_too_long c)) [
  | inl k ↦ rw (drop_turns-step t u turns c k) (
      drop_turns-IsCounted m n (u ∷ turns) (without_turn t (u ∷ turns) c) refl
        (without_turn-IsCounted t u turns c m n e h))
  | inr k ↦ rw (drop_turns-stop t u turns c k) (h, inr k)
]

module _ (t : HistoryBridgeTask) (tasks : List HistoryBridgeTask) (c : HistoryBridgeCapsule) where
  drop_tasks-step :
      is_too_long c ≡ true → drop_tasks (t ∷ tasks) c ≡ drop_tasks tasks (without_task t tasks c)
  unfolding drop_tasks
  drop_tasks-step e = rw (e, drop_tasks) refl

  drop_tasks-stop : is_too_long c ≡ false → drop_tasks (t ∷ tasks) c ≡ c
  unfolding drop_tasks
  drop_tasks-stop e = rw (e, drop_tasks) refl

  without_task-IsCounted :
      (m n : ℕ) → c.tasks ≡ t ∷ tasks → IsCounted m n c → IsCounted m n (without_task t tasks c)
  without_task-IsCounted m n e h =
      let same : length c.tasks ≡ suc (length tasks) = ap length e in
      let as_many = length-map (without_task_id t.task_id) c.turns in
      record {
        some_turn = omega (arith, h.some_turn, as_many);
        few_turns = omega (arith, h.few_turns, as_many);
        of_turns = omega (arith, h.of_turns, as_many);
        of_tasks = omega (arith, h.of_tasks, same);
      }

drop_tasks-IsCounted :
    (m n : ℕ) (tasks : List HistoryBridgeTask) (c : HistoryBridgeCapsule)
    → c.tasks ≡ tasks
    → IsCounted m n c
    → IsCut c
    → IsCounted m n (drop_tasks tasks c) × IsCut (drop_tasks tasks c)
drop_tasks-IsCounted m n [] c e h k = unfold drop_tasks in (h, k)
drop_tasks-IsCounted m n (t ∷ tasks) c e h k = elim (Bool-cases (is_too_long c)) [
  | inl j ↦ rw (drop_tasks-step t tasks c j) (
      drop_tasks-IsCounted m n tasks (without_task t tasks c) refl
        (without_task-IsCounted t tasks c m n e h)
        (inl (length-map (without_task_id t.task_id) c.turns ∙ alone k j)))
  | inr j ↦ rw (drop_tasks-stop t tasks c j) (h, inr j)
]
  where
    alone : IsCut c → is_too_long c ≡ true → length c.turns ≡ 1
    alone (inl one) j = one
    alone (inr short) j = absurd (true-ne-false (sym j ∙ short))

-- The last cut gives a capsule, and the counts stay.
abbrev pub GivesCounted : ℕ → ℕ → Option HistoryBridgeCapsule → Type 0
GivesCounted m n o = (c : HistoryBridgeCapsule) × (o ≡ some c) × IsCounted m n c

cut_outcome-short : (c : HistoryBridgeCapsule) → is_too_long c ≡ false → cut_outcome c ≡ some c
unfolding cut_outcome
cut_outcome-short c e = rw (e, cut_outcome) refl

cut_outcome-long :
    (c : HistoryBridgeCapsule) (newest : HistoryBridgeTurn)
    → is_too_long c ≡ true
    → last? c.turns ≡ some newest
    → cut_outcome c ≡ some (newest_alone newest c)
unfolding cut_outcome
cut_outcome-long c newest e k = rw (e, cut_outcome) (rw k refl)

only_turn :
    (turns : List HistoryBridgeTurn)
    → length turns ≡ 1
    → (newest : HistoryBridgeTurn) × (last? turns ≡ some newest)
only_turn [] e = absurd (omega (arith, e))
only_turn (t ∷ []) e = (t, refl)
only_turn (t ∷ u ∷ turns) e = absurd (omega (arith, e))

cut_outcome-GivesCounted :
    (m n : ℕ) (c : HistoryBridgeCapsule)
    → IsCounted m n c
    → IsCut c
    → GivesCounted m n (cut_outcome c)
cut_outcome-GivesCounted m n c h (inr short) = (c, cut_outcome-short c short, h)
cut_outcome-GivesCounted m n c h (inl one) = elim (Bool-cases (is_too_long c)) [
  | inr short ↦ (c, cut_outcome-short c short, h)
  | inl long ↦
      let (newest, found) = only_turn c.turns one in
      (
        newest_alone newest c,
        cut_outcome-long c newest long found,
        record {
          some_turn = omega arith;
          few_turns = omega arith;
          of_turns = omega (arith, h.of_turns, one);
          of_tasks = h.of_tasks;
        },
      )
]

cut_capsule-GivesCounted :
    (m n : ℕ) (c : HistoryBridgeCapsule) → IsCounted m n c → GivesCounted m n (cut_capsule c)
unfolding cut_capsule
cut_capsule-GivesCounted m n c h =
    let fewer = drop_turns c.turns c in
    let (counted, cut) = drop_turns-IsCounted m n c.turns c refl h in
    let (counted', cut') = drop_tasks-IsCounted m n fewer.tasks fewer refl counted cut in
    cut_outcome-GivesCounted m n (drop_tasks fewer.tasks fewer) counted' cut'

abbrev pub references_of : List WorkspaceCell → List BackgroundTaskReference
references_of eligible = background_task_references (take_last history_bridge_max_turns eligible)

whole_capsule-IsCounted :
    (c : WorkspaceCell) (cs : List WorkspaceCell)
    → IsCounted (length (c ∷ cs)) (length (references_of (c ∷ cs))) (whole_capsule (c ∷ cs))
unfolding whole_capsule
whole_capsule-IsCounted c cs =
    let selected = take_last history_bridge_max_turns (c ∷ cs) in
    let tasks = map bridge_task (background_task_references selected) in
    let as_many = length-map (bridge_turn tasks) selected in
    let last_8 = length-take_last history_bridge_max_turns (c ∷ cs) in
    let all_tasks = length-map bridge_task (background_task_references selected) in
    record {
      some_turn = omega (arith, as_many, last_8);
      few_turns = omega (arith, as_many, last_8);
      of_turns = omega (arith, as_many, last_8);
      of_tasks = omega (arith, all_tasks);
    }

-- Where there is a turn before the draft that may be bridged, the loops end with a capsule: it has 1 to
-- 8 turns, and every turn that may be bridged and every background task of the last 8 of them is in it
-- or counted as omitted.
pub build_history_bridge-GivesCounted :
    (cells : List WorkspaceCell) (draft : Text) (c : WorkspaceCell) (cs : List WorkspaceCell)
    → history_before draft cells ≡ some (c ∷ cs)
    → GivesCounted
        (length (c ∷ cs))
        (length (references_of (c ∷ cs)))
        (build_history_bridge cells draft)
unfolding build_history_bridge capsule_of
build_history_bridge-GivesCounted cells draft c cs e =
    rw (e, build_history_bridge)
      (cut_capsule-GivesCounted _ _ (whole_capsule (c ∷ cs)) (whole_capsule-IsCounted c cs))
