-- ===== src/Notebook/Updates.antt =====
-- src/agent/notebook.ts: what an assignment to the fields of one cell does to all of them.
use jupyter_plugin_aitermina.Notebook.{WorkspaceCell, update_cell, update_at, find_cell}
use jupyter_plugin_aitermina.Base.{
  Text, List, ℕ, ◌≡◌, All, is_some, get_elem?, map, ◌∷◌, ◌≢◌, arith, some, Bool-cases, suc, [],
  text_eq, zero, refl, inl, text_eq_iff, subst, inr, Distinct,
}
use jupyter_plugin_aitermina.Notebook.Ids.{ids}
use jupyter_plugin_aitermina.Notebook.Cells.{has_text}

-- An update that leaves the id of the cell.
abbrev pub KeepsId : (WorkspaceCell → WorkspaceCell) → Type 0
KeepsId f = (c : WorkspaceCell) → (f c).id ≡ c.id

pub update_cell-ids :
    (id : Text) (f : WorkspaceCell → WorkspaceCell) (cs : List WorkspaceCell)
    → KeepsId f
    → ids (update_cell id f cs) ≡ ids cs
unfolding update_cell
update_cell-ids id f [] h = refl
update_cell-ids id f (c ∷ cs) h = ground (arith, update_cell-ids id f cs h, h c)

pub update_at-ids :
    (i : ℕ) (f : WorkspaceCell → WorkspaceCell) (cs : List WorkspaceCell)
    → KeepsId f
    → ids (update_at i f cs) ≡ ids cs
unfolding update_at
update_at-ids i f [] h = refl
update_at-ids zero f (c ∷ cs) h = cc (h c)
update_at-ids (suc i) f (c ∷ cs) h = cc (update_at-ids i f cs h)

module _ {P Q : WorkspaceCell → Type 0} (f : WorkspaceCell → WorkspaceCell) where
  pub All-imp : (cs : List WorkspaceCell) → ((c : WorkspaceCell) → P c → Q c) → All P cs → All Q cs
  All-imp [] k h = tt
  All-imp (c ∷ cs) k (p, h) = (k c p, All-imp cs k h)

  -- The cell at the index gets what is known of it.
  pub All-update_at :
      (i : ℕ) (cs : List WorkspaceCell)
      → All P cs
      → ((c : WorkspaceCell) → get_elem? cs i ≡ some c → P c → Q (f c))
      → ((c : WorkspaceCell) → P c → Q c)
      → All Q (update_at i f cs)
  unfolding update_at
  All-update_at i [] h k l = tt
  All-update_at zero (c ∷ cs) (p, h) k l = (k c refl p, All-imp cs l h)
  All-update_at (suc i) (c ∷ cs) (p, h) k l = (l c p, All-update_at i cs h k l)

  pub All-others :
      (id : Text) (cs : List WorkspaceCell)
      → All (λ t. t ≢ id) (ids cs)
      → All P cs
      → ((c : WorkspaceCell) → c.id ≢ id → P c → Q c)
      → All Q cs
  All-others id [] a h l = tt
  All-others id (c ∷ cs) (n, a) (p, h) l = (l c n p, All-others id cs a h l)

  -- With distinct ids an update by id is one of every cell with the id.
  pub All-update_cell :
      (id : Text) (cs : List WorkspaceCell)
      → Distinct (ids cs)
      → All P cs
      → ((c : WorkspaceCell) → c.id ≡ id → P c → Q (f c))
      → ((c : WorkspaceCell) → c.id ≢ id → P c → Q c)
      → All Q (update_cell id f cs)
  unfolding update_cell
  All-update_cell id [] d h k l = tt
  All-update_cell id (c ∷ cs) (a, d) (p, h) k l = elim (Bool-cases (text_eq c.id id)) [
    | inl e ↦
        let same = (text_eq_iff c.id id).0 e in
        rw e (k c same p, All-others id cs (subst (λ s. All (λ t. t ≢ s) (ids cs)) same a) h l)
    | inr e ↦ rw e (l c (ground (arith, text_eq_iff c.id id)) p, All-update_cell id cs d h k l)
  ]

pub find_cell-ids :
    (id : Text) (cs : List WorkspaceCell) → is_some (find_cell id cs) ≡ has_text id (ids cs)
find_cell-ids id [] = refl
find_cell-ids id (c ∷ cs) = ground (arith, find_cell-ids id cs)

pub map-ids :
    (f : WorkspaceCell → WorkspaceCell) (cs : List WorkspaceCell)
    → KeepsId f
    → ids (map f cs) ≡ ids cs
map-ids f [] h = refl
map-ids f (c ∷ cs) h = cc (h c, map-ids f cs h)

pub All-map :
    (P Q : WorkspaceCell → Type 0) (f : WorkspaceCell → WorkspaceCell) (cs : List WorkspaceCell)
    → ((c : WorkspaceCell) → P c → Q (f c))
    → All P cs
    → All Q (map f cs)
All-map P Q f [] k h = tt
All-map P Q f (c ∷ cs) k (p, h) = (k c p, All-map P Q f cs k h)
