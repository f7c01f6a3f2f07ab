-- ===== src/Document/Bridges.antt =====
-- src/agent/document.ts: the context bridges that a document keeps, merged by generation.
use jupyter_plugin_aitermina.Base.{
  ℕ, Text, Bool, Option, List, to_set, not, none, false, keep, map, true, length, ◌∷◌, [], leb,
  some, ◌+◌, if◌then◌else◌, ◌==◌, text_eq, ltb, ◌&&◌, ◌||◌, truthy, codes, trim,
}
use jupyter_plugin_aitermina.Json.{Items, Value, nil, arr, cons, get}
use jupyter_plugin_aitermina.Document.Normalizing.{
  normalize_nullable_generation, max_safe_integer, is_command,
}
use jupyter_plugin_aitermina.Notebook.{AgentContextBridge, CellStatus, status_eq}
use jupyter_plugin_aitermina.Protocol.{WorkspaceMode}
use jupyter_plugin_aitermina.Turn.Persistence.{strings_of, fields_of}

-- What `normalizeContextBridges` looks at of a cell.
pub record BridgeCell : Type 0 where
  pub id : Text
  pub kind : WorkspaceMode
  pub status : CellStatus
  pub source : Text
  pub agent_context_generation : Option ℕ

-- An entry of the list that has a generation and a list of cell ids: the strings of that list, and
-- whether the list is empty.
pub record BridgeCandidate : Type 0 where
  pub generation : ℕ
  pub is_empty_list : Bool
  pub cell_ids : List Text

abbrev pub is_bridgeable : BridgeCell → Bool
is_bridgeable c =
    not (is_command c.kind) && not (status_eq c.status CellStatus.idle) && truthy (trim c.source)

-- `eligible.get(id)`: the last of the cells with the id counts.
unfoldable pub eligible_cell : Text → List BridgeCell → Option BridgeCell
eligible_cell id [] = none
eligible_cell id (c ∷ cs) = elim (eligible_cell id cs) [
  | some found ↦ some found
  | none ↦ if is_bridgeable c && text_eq c.id id then some c else none
]

abbrev pub has_generation : Option ℕ → ℕ → Bool
has_generation none g = false
has_generation (some n) g = n == g

abbrev pub accepts_cell : ℕ → Option BridgeCell → Bool
accepts_cell g none = false
accepts_cell g (some c) = not (has_generation c.agent_context_generation g)

-- The cell is there and of another generation.
unfoldable pub is_bridged_by : List BridgeCell → ℕ → Text → Bool
unfolding eligible_cell
is_bridged_by cells g id = accepts_cell g (eligible_cell id cells)

-- `order.get(id) ?? Number.MAX_SAFE_INTEGER`: the last index with the id.
unfoldable pub order_of : ℕ → Text → List BridgeCell → Option ℕ
order_of i id [] = none
order_of i id (c ∷ cs) = elim (order_of (i + 1) id cs) [
  | some j ↦ some j
  | none ↦ if text_eq c.id id then some i else none
]

abbrev pub index_or_last : Option ℕ → ℕ
index_or_last none = max_safe_integer
index_or_last (some i) = i

-- The map from generations to sets of ids, in the order of insertion.
abbrev pub ids_of_generation : ℕ → List AgentContextBridge → List Text
ids_of_generation g [] = []
ids_of_generation g (b ∷ bs) = if b.generation == g then b.cell_ids else ids_of_generation g bs

unfoldable pub set_generation : ℕ → List Text → List AgentContextBridge → List AgentContextBridge
set_generation g ids [] = record { generation = g; cell_ids = ids } ∷ []
set_generation g ids (b ∷ bs) =
    if b.generation == g
    then record { generation = g; cell_ids = ids } ∷ bs
    else b ∷ set_generation g ids bs

-- The body of the loop over the entries.
unfoldable pub merge_candidate :
    List BridgeCell → ℕ → BridgeCandidate → List AgentContextBridge → List AgentContextBridge
unfolding set_generation is_bridged_by to_set
merge_candidate cells active c merged =
    let valid_ids = keep (is_bridged_by cells c.generation) c.cell_ids in
    if ltb active c.generation
    then merged
    else if c.is_empty_list || ltb 0 (length valid_ids)
    then set_generation c.generation (to_set (ids_of_generation c.generation merged) valid_ids)
        merged
    else merged

unfoldable pub merge_candidates :
    List BridgeCell → ℕ → List AgentContextBridge → List BridgeCandidate → List AgentContextBridge
unfolding merge_candidate
merge_candidates cells active merged [] = merged
merge_candidates cells active merged (c ∷ cs) =
    merge_candidates cells active (merge_candidate cells active c merged) cs

-- The stable sort by a number.
module _ {ℓ} {A : Type ℓ} (key : A → ℕ) where
  unfoldable pub insert_sorted : A → List A → List A
  insert_sorted x [] = x ∷ []
  insert_sorted x (y ∷ ys) = if leb (key x) (key y) then x ∷ y ∷ ys else y ∷ insert_sorted x ys

  unfoldable pub sort_by : List A → List A
  unfolding insert_sorted
  sort_by [] = []
  sort_by (x ∷ xs) = insert_sorted x (sort_by xs)

unfoldable pub sort_cell_ids : List BridgeCell → AgentContextBridge → AgentContextBridge
unfolding sort_by order_of
sort_cell_ids cells b = record b {
  cell_ids = sort_by (λ id. index_or_last (order_of 0 id cells)) b.cell_ids;
}

unfoldable pub normalize_candidates :
    List BridgeCell → ℕ → List BridgeCandidate → List AgentContextBridge
unfolding merge_candidates sort_by sort_cell_ids
normalize_candidates cells active candidates = map (sort_cell_ids cells) (
    sort_by (λ (b : AgentContextBridge). b.generation)
      (merge_candidates cells active [] candidates))

abbrev pub is_nil : Items → Bool
is_nil nil = true
is_nil items = false

abbrev pub candidate_of : Option ℕ → Option Value → Option BridgeCandidate
candidate_of (some g) (some (arr items)) =
    some (record { generation = g; is_empty_list = is_nil items; cell_ids = strings_of items })
candidate_of g v = none

-- The entries of the list that the loop does not leave at once.
unfoldable pub read_candidates : Items → List BridgeCandidate
unfolding normalize_nullable_generation strings_of
read_candidates nil = []
read_candidates (cons v items) =
    elim (candidate_of (normalize_nullable_generation (get (codes "generation") (fields_of v)))
      (get (codes "cellIds") (fields_of v))) [
        | some c ↦ c ∷ read_candidates items
        | none ↦ read_candidates items
      ]

unfoldable pub normalize_context_bridges :
    Option Value → List BridgeCell → ℕ → List AgentContextBridge
unfolding read_candidates normalize_candidates
normalize_context_bridges (some (arr items)) cells active =
    normalize_candidates cells active (read_candidates items)
normalize_context_bridges v cells active = []

abbrev pub candidate_of_bridge : AgentContextBridge → BridgeCandidate
candidate_of_bridge b = record {
  generation = b.generation;
  is_empty_list = length b.cell_ids == 0;
  cell_ids = b.cell_ids;
}

-- The same call with the bridges of a notebook. A generation past the safe integers is dropped.
unfoldable pub normalize_notebook_bridges :
    List AgentContextBridge → List BridgeCell → ℕ → List AgentContextBridge
unfolding normalize_candidates
normalize_notebook_bridges bridges cells active = normalize_candidates cells active (
    map candidate_of_bridge
      (keep (λ (b : AgentContextBridge). leb b.generation max_safe_integer) bridges))
