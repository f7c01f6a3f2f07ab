-- ===== src/Protocol/Streaming.antt =====
-- src/agent/protocol.ts: what becomes of the snapshots of a streamed message.
use jupyter_plugin_aitermina.Protocol.Blocks.{
  Chat, set_text, apply_text, apply_server_event, find_last_text_block, text_of_message, message_of,
  numbered, push,
}
use jupyter_plugin_aitermina.Protocol.{ChatBlock, block_id, text_block, text}
use jupyter_plugin_aitermina.Base.{
  Text, List, [], Option, ◌≡◌, map, sym, some, ◌++◌, arith, Option-cases, ◌∷◌, ◌∙◌, ap, inl, refl,
  inr, none, true, codes, All, ◌≢◌, text_eq_iff, text_eq_refl, ℕ, decimal, decimal-ne-nil,
}
use mathlib.Core.List.{map-append}
use jupyter_plugin_aitermina.Protocol.BlockLaws.{set_text-id}

set_text-set_text :
    (id t u : Text) (b : ChatBlock) → set_text id u (set_text id t b) ≡ set_text id u b
unfolding set_text
set_text-set_text id t u (text_block id' t' m) = ground arith
set_text-set_text id t u b = refl

map-set_text :
    (id t u : Text) (bs : List ChatBlock)
    → map (set_text id u) (map (set_text id t) bs) ≡ map (set_text id u) bs
map-set_text id t u [] = refl
map-set_text id t u (b ∷ bs) = cc (set_text-set_text id t u b, map-set_text id t u bs)

text_of_message-set_text :
    (m id t : Text) (b : ChatBlock) → text_of_message m (set_text id t b) ≡ text_of_message m b
unfolding set_text
text_of_message-set_text m id t (text_block id' t' none) = ground arith
text_of_message-set_text m id t (text_block id' t' (some n)) = ground arith
text_of_message-set_text m id t b = refl

find_last-set_text :
    (m id t : Text) (bs : List ChatBlock)
    → find_last_text_block m (map (set_text id t) bs) ≡ find_last_text_block m bs
unfolding find_last_text_block
find_last-set_text m id t [] = refl
find_last-set_text m id t (b ∷ bs) =
    ground
      (arith, find_last-set_text m id t bs, text_of_message-set_text m id t b, set_text-id id t b)

find_last-append :
    (m : Text) (bs : List ChatBlock) (b : ChatBlock)
    → text_of_message m b ≡ true
    → find_last_text_block m (bs ++ b ∷ []) ≡ some (block_id b)
unfolding find_last_text_block
find_last-append m [] b e = rw e
find_last-append m (a ∷ bs) b e = ground (arith, find_last-append m bs b e)

-- The id of a streamed message's block.
abbrev message_id : Text → Text
message_id m = codes "text-" ++ m

set_text-other : (id t : Text) (b : ChatBlock) → block_id b ≢ id → set_text id t b ≡ b
unfolding set_text block_id
set_text-other id t (text_block id' t' m) h = ground (arith, text_eq_iff id' id)
set_text-other id t b h = refl

map-set_text_other :
    (id t : Text) (bs : List ChatBlock)
    → All (λ b. block_id b ≢ id) bs
    → map (set_text id t) bs ≡ bs
map-set_text_other id t [] h = refl
map-set_text_other id t (b ∷ bs) (p, h) = cc (set_text-other id t b p, map-set_text_other id t bs h)

map-set_text_last :
    (id t u : Text) (m : Option Text) (bs : List ChatBlock)
    → All (λ b. block_id b ≢ id) bs
    → map (set_text id u) (bs ++ text_block id t m ∷ []) ≡ bs ++ text_block id u m ∷ []
unfolding set_text
map-set_text_last id t u m bs h =
    rw (map-append (set_text id u) bs (text_block id t m ∷ []), map-set_text_other id u bs h)
      (ground (arith, text_eq_refl id))

apply_text_new :
    (m t : Text) (c : Chat)
    → find_last_text_block m c.blocks ≡ none
    → apply_text (some m) t c ≡ push (text_block (message_id m) t (some m)) c
unfolding apply_text
apply_text_new m t c e = ground arith

apply_text_old :
    (m t : Text) (c : Chat) {id : Text}
    → find_last_text_block m c.blocks ≡ some id
    → apply_text (some m) t c ≡ record c { blocks = map (set_text id t) c.blocks }
unfolding apply_text
apply_text_old m t c e = ground arith

-- The first snapshot of a message, and the next one.
apply_text_twice :
    (m t u : Text) (c : Chat)
    → find_last_text_block m c.blocks ≡ none
    → (apply_text (some m) u (apply_text (some m) t c)).blocks
      ≡ map (set_text (message_id m) u) (c.blocks ++ text_block (message_id m) t (some m) ∷ [])
unfolding block_id
apply_text_twice m t u c e =
    let b = text_block (message_id m) t (some m) in
    rw (apply_text_new m t c e)
      (rw (apply_text_old m u (push b c) (find_last-append m c.blocks b (text_eq_refl m))))

apply_text_again :
    (m t u : Text) (c : Chat)
    → (find_last_text_block m c.blocks ≡ none → All (λ b. block_id b ≢ message_id m) c.blocks)
    → (apply_text (some m) u (apply_text (some m) t c)).blocks ≡ (apply_text (some m) u c).blocks
apply_text_again m t u c fresh = elim (Option-cases (find_last_text_block m c.blocks)) [
  | inl e ↦
      apply_text_twice m t u c e
      ∙ map-set_text_last (message_id m) t u (some m) c.blocks (fresh e)
      ∙ sym (ap (λ (d : Chat). d.blocks) (apply_text_new m u c e))
  | inr (id, e) ↦
      let c' = record c { blocks = map (set_text id t) c.blocks } in
      rw (apply_text_old m t c e, apply_text_old m u c e)
        (rw (apply_text_old m u c' (find_last-set_text m id t c.blocks ∙ e))
          (map-set_text id t u c.blocks))
]

message_of-truthy : (s : Text) → s ≢ [] → message_of (some s) ≡ some s
message_of-truthy [] h = absurd (h refl)
message_of-truthy (c ∷ s) h = refl

-- Streaming: of two snapshots of a message the second replaces the first, as if it had come alone,
-- provided that the id which the message's first block gets belongs to no block.
pub text_last_wins :
    (turn turn' : Option Text) (m t u : Text) (c : Chat)
    → m ≢ []
    → (find_last_text_block m c.blocks ≡ none → All (λ b. block_id b ≢ codes "text-" ++ m) c.blocks)
    → (apply_server_event
        (text turn' (some m) u)
        (apply_server_event (text turn (some m) t) c)).blocks
      ≡ (apply_server_event (text turn' (some m) u) c).blocks
unfolding apply_server_event
text_last_wins turn turn' m t u c full fresh =
    rw (message_of-truthy m full) (apply_text_again m t u c fresh)

-- Without that proviso a message overwrites a text that is not its own: the text of an event that
-- names no message, numbered n, is replaced by the second snapshot of a message whose id is the
-- numeral of n.
pub text_overwrites_unnumbered :
    (n : ℕ) (old t u : Text) (turn : Option Text) (c : Chat)
    → c.blocks ≡ text_block (numbered (codes "text") n) old none ∷ []
    → let message = λ (s : Text). text turn (some (decimal n)) s in
      (apply_server_event (message u) (apply_server_event (message t) c)).blocks
      ≡ text_block (numbered (codes "text") n) u none
        ∷ text_block (numbered (codes "text") n) u (some (decimal n))
        ∷ []
unfolding apply_server_event numbered find_last_text_block set_text
text_overwrites_unnumbered n old t u turn c e =
    rw (message_of-truthy (decimal n) (decimal-ne-nil n)) (
      apply_text_twice (decimal n) t u c (rw e)
      ∙ rw e (ground (arith, text_eq_refl (message_id (decimal n)))))
