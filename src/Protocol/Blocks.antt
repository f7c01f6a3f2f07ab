-- ===== src/Protocol/Blocks.antt =====
-- src/agent/protocol.ts: how an event of the server changes the blocks of a chat. The counter of
-- `nextId` is part of the state.
use jupyter_plugin_aitermina.Base.{
  List, Text, Option, ℕ, Bool, none, codes, [], some, ◌++◌, decimal, text_eq, map, ◌∷◌,
  if◌then◌else◌, ◌+◌, false, any, ◌&&◌, truthy,
}
use jupyter_plugin_aitermina.Protocol.{
  ToolEnd, ChatBlock, ToolStart, ServerEvent, ThinkingState, ToolBlock, text_block, tool_block,
  text, finished, running, thinking_block, thinking, block_id, tool_error, tool_start, done,
  tool_end, install, install_block, denied, denied_block, error_block, result, ready, accepted,
  exec_output, exec_done, exec_error, configuration, unexpected, configuration_error, error,
}

pub record Chat : Type 0 where
  pub blocks : List ChatBlock
  pub event_counter : ℕ

-- `${prefix}-${counter}`
unfoldable pub numbered : Text → ℕ → Text
numbered prefix n = prefix ++ codes "-" ++ decimal n

-- A message id is truthy: given and not empty.
abbrev pub message_of : Option Text → Option Text
message_of none = none
message_of (some []) = none
message_of (some (c ∷ s)) = some (c ∷ s)

abbrev pub text_of_message : Text → ChatBlock → Bool
text_of_message m (text_block id t (some n)) = text_eq n m
text_of_message m _ = false

-- `findLastTextBlock`, as the id of the block.
unfoldable pub find_last_text_block : Text → List ChatBlock → Option Text
find_last_text_block m [] = none
find_last_text_block m (b ∷ bs) = elim (find_last_text_block m bs) [
  | some id ↦ some id
  | none ↦ if text_of_message m b then some (block_id b) else none
]

unfoldable pub set_text : Text → Text → ChatBlock → ChatBlock
set_text id t (text_block id' t' m) =
    if text_eq id' id then text_block id' t m else text_block id' t' m
set_text id t b = b

unfoldable pub set_thinking : Text → ThinkingState → ChatBlock → ChatBlock
set_thinking id s (thinking_block id' s') =
    if text_eq id' id then thinking_block id' s else thinking_block id' s'
set_thinking id s b = b

abbrev pub is_thinking : Text → ChatBlock → Bool
is_thinking id (thinking_block id' s) = text_eq id' id
is_thinking id b = false

-- A value that the event does not carry keeps that of the block.
abbrev pub given_or {ℓ} : {A : Type ℓ} → Option A → Option A → Option A
given_or none b = b
given_or (some a) b = some a

unfoldable pub end_tool : ToolEnd → ChatBlock → ChatBlock
end_tool e (tool_block b) =
    if text_eq b.id e.id
    then tool_block (record b {
      output = e.output;
      status = if e.is_error then tool_error else done;
      duration_ms = given_or e.duration_ms b.duration_ms;
      line_count = given_or e.line_count b.line_count;
      byte_count = given_or e.byte_count b.byte_count;
    })
    else tool_block b
end_tool e b = b

abbrev pub push : ChatBlock → Chat → Chat
push b c = record c { blocks = c.blocks ++ b ∷ [] }

-- `nextId(prefix)` and the block that is made with it.
abbrev pub push_numbered : Text → (Text → ChatBlock) → Chat → Chat
push_numbered prefix make c = record c {
  blocks = c.blocks ++ make (numbered prefix (c.event_counter + 1)) ∷ [];
  event_counter = c.event_counter + 1;
}

unfoldable pub apply_text : Option Text → Text → Chat → Chat
apply_text none t c = push_numbered (codes "text") (λ id. text_block id t none) c
apply_text (some m) t c = elim (find_last_text_block m c.blocks) [
  | some id ↦ record c { blocks = map (set_text id t) c.blocks }
  | none ↦ push (text_block (codes "text-" ++ m) t (some m)) c
]

abbrev pub or_finished : Option ThinkingState → ThinkingState
or_finished none = finished
or_finished (some s) = s

unfoldable pub apply_thinking : Text → ThinkingState → Chat → Chat
apply_thinking id s c =
    if any (is_thinking id) c.blocks
    then record c { blocks = map (set_thinking id s) c.blocks }
    else push (thinking_block id s) c

abbrev pub or_empty : Option Text → Text
or_empty none = []
or_empty (some s) = s

abbrev pub started_tool : ToolStart → ToolBlock
started_tool e = record {
  id = e.id;
  name = e.name;
  input = e.input;
  output = [];
  status = running;
  started_at = e.started_at;
  duration_ms = none;
  line_count = none;
  byte_count = none;
}

unfoldable pub apply_server_event : ServerEvent → Chat → Chat
unfolding apply_text apply_thinking
apply_server_event (text turn message t) c = apply_text (message_of message) t c
apply_server_event (thinking turn id s) c =
    apply_thinking (codes "thinking-" ++ id) (or_finished s) c
apply_server_event (tool_start turn e) c = push (tool_block (started_tool e)) c
apply_server_event (tool_end turn e) c = record c { blocks = map (end_tool e) c.blocks }
apply_server_event (install turn command status detail) c =
    push_numbered (codes "install") (λ id. install_block id command status (or_empty detail)) c
apply_server_event (denied turn command reason) c =
    push_numbered (codes "denied") (λ id. denied_block id command reason) c
apply_server_event (error turn code message) c =
    push_numbered (codes "error") (λ id. error_block id message (some code)) c
apply_server_event (result turn r) c =
    if r.is_error && truthy r.text
    then push_numbered (codes "result") (λ id. error_block id r.text none) c
    else c
apply_server_event (ready _) c = c
apply_server_event (accepted _ _) c = c
apply_server_event (exec_output _) c = c
apply_server_event (exec_done _) c = c
apply_server_event (exec_error _) c = c
apply_server_event (configuration _) c = c
apply_server_event configuration_error c = c
apply_server_event (unexpected _) c = c
