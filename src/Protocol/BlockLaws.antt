-- ===== src/Protocol/BlockLaws.antt =====
-- src/agent/protocol.ts: what every event of the server keeps of a chat.
use jupyter_plugin_aitermina.Protocol.Blocks.{
  Chat, set_text, set_thinking, end_tool, apply_text, apply_thinking, apply_server_event,
  find_last_text_block, message_of, is_thinking, or_finished,
}
use jupyter_plugin_aitermina.Protocol.{
  ChatBlock, block_id, ThinkingState, ServerEvent, ToolEnd, text_block, thinking_block, tool_block,
  thinking, tool_start, tool_end, install, denied, result, error,
}
use jupyter_plugin_aitermina.Base.{
  Text, List, [], Option, ◌≡◌, map, sym, Bool-cases, some, ◌++◌, length, arith, Option-cases, any,
  ◌∷◌, ◌∙◌, ap, inl, ◌≤◌, refl, inr, none, ◌&&◌, truthy,
}
use mathlib.Core.List.{append-nil, map-append}

-- The blocks that are there stay, in their order and under their ids; at most one is added.
abbrev pub Extends : List ChatBlock → List ChatBlock → Type 0
Extends bs cs = (new : List Text) × (map block_id cs ≡ map block_id bs ++ new) × (length new ≤ 1)

map-ids :
    (f : ChatBlock → ChatBlock) (bs : List ChatBlock)
    → ((b : ChatBlock) → block_id (f b) ≡ block_id b)
    → map block_id (map f bs) ≡ map block_id bs
map-ids f [] h = refl
map-ids f (b ∷ bs) h = rw (h b) (ap (◌∷◌ (block_id b)) (map-ids f bs h))

pub set_text-id : (id t : Text) (b : ChatBlock) → block_id (set_text id t b) ≡ block_id b
unfolding set_text block_id
set_text-id id t (text_block id' t' m) = ground arith
set_text-id id t b = refl

set_thinking-id :
    (id : Text) (s : ThinkingState) (b : ChatBlock) → block_id (set_thinking id s b) ≡ block_id b
unfolding set_thinking block_id
set_thinking-id id s (thinking_block id' s') = ground arith
set_thinking-id id s b = refl

end_tool-id : (e : ToolEnd) (b : ChatBlock) → block_id (end_tool e b) ≡ block_id b
unfolding end_tool block_id
end_tool-id e (tool_block b) = ground arith
end_tool-id e b = refl

mapped :
    (f : ChatBlock → ChatBlock) (bs : List ChatBlock)
    → ((b : ChatBlock) → block_id (f b) ≡ block_id b)
    → Extends bs (map f bs)
mapped f bs h = ([], map-ids f bs h ∙ sym (append-nil _), omega arith)

added : (bs : List ChatBlock) (b : ChatBlock) → Extends bs (bs ++ b ∷ [])
added bs b = (block_id b ∷ [], map-append block_id bs (b ∷ []), omega arith)

unchanged : (bs : List ChatBlock) → Extends bs bs
unchanged bs = ([], sym (append-nil _), omega arith)

apply_text-Extends :
    (m : Option Text) (t : Text) (c : Chat) → Extends c.blocks (apply_text m t c).blocks
unfolding apply_text
apply_text-Extends none t c = added c.blocks _
apply_text-Extends (some m) t c = elim (Option-cases (find_last_text_block m c.blocks)) [
  | inl e ↦ rw (e, apply_text) (added c.blocks _)
  | inr (id, e) ↦ rw (e, apply_text) (mapped (set_text id t) c.blocks (set_text-id id t))
]

apply_thinking-Extends :
    (id : Text) (s : ThinkingState) (c : Chat) → Extends c.blocks (apply_thinking id s c).blocks
unfolding apply_thinking
apply_thinking-Extends id s c = elim (Bool-cases (any (is_thinking id) c.blocks)) [
  | inl e ↦ rw (e, apply_thinking) (mapped (set_thinking id s) c.blocks (set_thinking-id id s))
  | inr e ↦ rw (e, apply_thinking) (added c.blocks _)
]

-- Whatever event arrives, no block is removed, moved or renamed, and at most one is added, at the
-- end.
pub apply_server_event-Extends :
    (e : ServerEvent) (c : Chat) → Extends c.blocks (apply_server_event e c).blocks
unfolding apply_server_event
apply_server_event-Extends (ServerEvent.text turn m t) c = apply_text-Extends (message_of m) t c
apply_server_event-Extends (thinking turn id s) c = apply_thinking-Extends _ (or_finished s) c
apply_server_event-Extends (tool_start turn e) c = added c.blocks _
apply_server_event-Extends (tool_end turn e) c = mapped (end_tool e) c.blocks (end_tool-id e)
apply_server_event-Extends (install turn command status detail) c = added c.blocks _
apply_server_event-Extends (denied turn command reason) c = added c.blocks _
apply_server_event-Extends (error turn code message) c = added c.blocks _
apply_server_event-Extends (result turn r) c = elim (Bool-cases (r.is_error && truthy r.text)) [
  | inl e ↦ rw (e, apply_server_event) (added c.blocks _)
  | inr e ↦ rw (e, apply_server_event) (unchanged c.blocks)
]
apply_server_event-Extends e c = unchanged c.blocks
