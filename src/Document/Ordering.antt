-- ===== src/Document/Ordering.antt =====
-- src/agent/document.ts: the bridges of a document stand once for each generation, in their order.
use jupyter_plugin_aitermina.Base.{
  ℕ, leb, ltb, List, ◌==◌, All, Text, ◌≡◌, ◌∷◌, ◌<◌, true, false, Bool-cases, arith, map, ◌≢◌, ◌≤◌,
  [], inl, ==_iff, inr, subst, keep, to_set, ◌||◌, length, Bool, All-keep,
}
use jupyter_plugin_aitermina.Notebook.{AgentContextBridge}
use jupyter_plugin_aitermina.Document.Bridges.{
  set_generation, merge_candidate, merge_candidates, sort_cell_ids, normalize_candidates,
  insert_sorted, sort_by, BridgeCell, BridgeCandidate, is_bridged_by, ids_of_generation,
}

below_of : (m n : ℕ) → leb m n ≡ true → m ≢ n → m < n
below_of m n e d = ground arith

above_of : (m n : ℕ) → leb m n ≡ false → n < m
above_of m n e = ground arith

at_most : (m n : ℕ) → ltb m n ≡ false → n ≤ m
at_most m n e = ground arith

unequal : (m n : ℕ) → (m == n) ≡ false → m ≢ n
unequal m n e = ground arith

-- Strictly increasing keys.
module _ {ℓ} {A : Type ℓ} (key : A → ℕ) where
  abbrev pub Increasing : List A → Type 0
  Increasing [] = Unit
  Increasing (x ∷ xs) = All (λ y. key x < key y) xs × Increasing xs

  -- No two keys are the same.
  abbrev pub Apart : List A → Type 0
  Apart [] = Unit
  Apart (x ∷ xs) = All (λ y. key x ≢ key y) xs × Apart xs

  All-insert_sorted :
      (P : A → Type 0) (x : A) (ys : List A) → P x → All P ys → All P (insert_sorted key x ys)
  unfolding insert_sorted
  All-insert_sorted P x [] p h = (p, tt)
  All-insert_sorted P x (y ∷ ys) p (q, h) = elim (Bool-cases (leb (key x) (key y))) [
    | inl e ↦ rw e (p, (q, h))
    | inr e ↦ rw e (q, All-insert_sorted P x ys p h)
  ]

  pub All-sort_by : (P : A → Type 0) (xs : List A) → All P xs → All P (sort_by key xs)
  unfolding sort_by
  All-sort_by P [] h = tt
  All-sort_by P (x ∷ xs) (p, h) = All-insert_sorted P x (sort_by key xs) p (All-sort_by P xs h)

  below_all :
      (k : ℕ) (y : A) (ys : List A)
      → k < key y
      → All (λ z. key y < key z) ys
      → All (λ z. k < key z) ys
  below_all k y [] h a = tt
  below_all k y (z ∷ ys) h (p, a) = (omega (arith, h, p), below_all k y ys h a)

  insert_sorted-Increasing :
      (x : A) (ys : List A)
      → All (λ y. key x ≢ key y) ys
      → Increasing ys
      → Increasing (insert_sorted key x ys)
  unfolding insert_sorted
  insert_sorted-Increasing x [] a h = (tt, tt)
  insert_sorted-Increasing x (y ∷ ys) (d, a) (p, h) = elim (Bool-cases (leb (key x) (key y))) [
    | inl e ↦
        let less : key x < key y = below_of (key x) (key y) e d in
        rw e ((less, below_all (key x) y ys less p), (p, h))
    | inr e ↦ rw e (
      All-insert_sorted (λ z. key y < key z) x ys (above_of (key x) (key y) e) p,
      insert_sorted-Increasing x ys a h,
    )
  ]

  pub sort_by-Increasing : (xs : List A) → Apart xs → Increasing (sort_by key xs)
  unfolding sort_by
  sort_by-Increasing [] h = tt
  sort_by-Increasing (x ∷ xs) (p, h) =
      insert_sorted-Increasing x (sort_by key xs) (All-sort_by (λ y. key x ≢ key y) xs p)
        (sort_by-Increasing xs h)

abbrev pub generation_of : AgentContextBridge → ℕ
generation_of b = b.generation

-- The bridges that are merged: apart, and none past the generation of the notebook.
abbrev IsMerged : ℕ → List AgentContextBridge → Type 0
IsMerged active bs = Apart generation_of bs × All (λ b. generation_of b ≤ active) bs

All-set_generation :
    (P : ℕ → Type 0) (g : ℕ) (ids : List Text) (bs : List AgentContextBridge)
    → P g
    → All (λ b. P (generation_of b)) bs
    → All (λ b. P (generation_of b)) (set_generation g ids bs)
unfolding set_generation
All-set_generation P g ids [] p h = (p, tt)
All-set_generation P g ids (b ∷ bs) p (q, h) = elim (Bool-cases (b.generation == g)) [
  | inl e ↦ rw e (p, h)
  | inr e ↦ rw e (q, All-set_generation P g ids bs p h)
]

Apart-set_generation :
    (g : ℕ) (ids : List Text) (bs : List AgentContextBridge)
    → Apart generation_of bs
    → Apart generation_of (set_generation g ids bs)
unfolding set_generation
Apart-set_generation g ids [] h = (tt, tt)
Apart-set_generation g ids (b ∷ bs) (p, h) = elim (Bool-cases (b.generation == g)) [
  | inl e ↦
      let same : b.generation ≡ g = (==_iff b.generation g).0 e in
      rw e (subst (λ k. All (λ c. k ≢ generation_of c) bs) same p, h)
  | inr e ↦ rw e (
    All-set_generation (λ k. b.generation ≢ k) g ids bs (unequal b.generation g e) p,
    Apart-set_generation g ids bs h,
  )
]

merge_candidate-IsMerged :
    (cells : List BridgeCell) (active : ℕ) (c : BridgeCandidate) (bs : List AgentContextBridge)
    → IsMerged active bs
    → IsMerged active (merge_candidate cells active c bs)
unfolding merge_candidate
merge_candidate-IsMerged cells active c bs (a, h) = elim (Bool-cases (ltb active c.generation)) [
  | inl e ↦ rw e (a, h)
  | inr e ↦
      let valid_ids = keep (is_bridged_by cells c.generation) c.cell_ids in
      let ids = to_set (ids_of_generation c.generation bs) valid_ids in
      elim (Bool-cases (c.is_empty_list || ltb 0 (length valid_ids))) [
        | inl k ↦
            rw (e, k)
              (
                Apart-set_generation c.generation ids bs a,
                All-set_generation (λ g. g ≤ active) c.generation ids bs
                    (at_most active c.generation e) h,
              )
        | inr k ↦ rw (e, k) (a, h)
      ]
]

merge_candidates-IsMerged :
    (cells : List BridgeCell) (active : ℕ) (cs : List BridgeCandidate)
    (bs : List AgentContextBridge)
    → IsMerged active bs
    → IsMerged active (merge_candidates cells active bs cs)
unfolding merge_candidates
merge_candidates-IsMerged cells active [] bs h = h
merge_candidates-IsMerged cells active (c ∷ cs) bs h =
    merge_candidates-IsMerged cells active cs (merge_candidate cells active c bs)
      (merge_candidate-IsMerged cells active c bs h)

-- Sorting the ids within the bridges leaves their generations.
All-sort_cell_ids :
    (cells : List BridgeCell) (P : ℕ → Type 0) (bs : List AgentContextBridge)
    → All (λ b. P (generation_of b)) bs
    → All (λ b. P (generation_of b)) (map (sort_cell_ids cells) bs)
unfolding sort_cell_ids
All-sort_cell_ids cells P [] h = tt
All-sort_cell_ids cells P (b ∷ bs) (p, h) = (p, All-sort_cell_ids cells P bs h)

Increasing-sort_cell_ids :
    (cells : List BridgeCell) (bs : List AgentContextBridge)
    → Increasing generation_of bs
    → Increasing generation_of (map (sort_cell_ids cells) bs)
unfolding sort_cell_ids
Increasing-sort_cell_ids cells [] h = tt
Increasing-sort_cell_ids cells (b ∷ bs) (p, h) =
    (All-sort_cell_ids cells (λ g. b.generation < g) bs p, Increasing-sort_cell_ids cells bs h)

-- The bridges, in the order of their generations, which are at most that of the notebook.
abbrev pub IsOrdered : ℕ → List AgentContextBridge → Type 0
IsOrdered active bs = Increasing generation_of bs × All (λ b. generation_of b ≤ active) bs

pub normalize_candidates-IsOrdered :
    (cells : List BridgeCell) (active : ℕ) (cs : List BridgeCandidate)
    → IsOrdered active (normalize_candidates cells active cs)
unfolding normalize_candidates
normalize_candidates-IsOrdered cells active cs =
    let merged = merge_candidates cells active [] cs in
    let (apart, low) = merge_candidates-IsMerged cells active cs [] (tt, tt) in
    let sorted = sort_by generation_of merged in
    (
      Increasing-sort_cell_ids cells sorted (sort_by-Increasing generation_of merged apart),
      All-sort_cell_ids cells (λ g. g ≤ active) sorted
          (All-sort_by generation_of (λ b. generation_of b ≤ active) merged low),
    )

pub keep-Increasing :
    (p : AgentContextBridge → Bool) (bs : List AgentContextBridge)
    → Increasing generation_of bs
    → Increasing generation_of (keep p bs)
keep-Increasing p [] h = tt
keep-Increasing p (b ∷ bs) (a, h) = elim (Bool-cases (p b)) [
  | inl e ↦ rw e (All-keep (λ c. b.generation < generation_of c) p bs a, keep-Increasing p bs h)
  | inr e ↦ rw e (keep-Increasing p bs h)
]
