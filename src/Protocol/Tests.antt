-- ===== src/Protocol/Tests.antt =====
-- src/agent/protocol.ts: runs on concrete events and blocks.
use jupyter_plugin_aitermina.Base.{
  Option, Text, codes, none, some, decimal, ◌∷◌, ◌≡◌, [], index_of, refl, index_of_from, text_eq,
  ◌≢◌, ◌++◌, ap, true, false,
}
use jupyter_plugin_aitermina.Protocol.Blocks.{Chat, numbered, apply_server_event}
use jupyter_plugin_aitermina.Protocol.BlockLaws.{Extends, apply_server_event-Extends}
use jupyter_plugin_aitermina.Protocol.{block_id, ServerEvent, text_block}
use jupyter_plugin_aitermina.Json.{Value, obj, field, str, end, get}
use jupyter_plugin_aitermina.Protocol.Dsh.{RunScope, text_delta, parsed}
use jupyter_plugin_aitermina.Protocol.DshEvents.{
  parse_dsh_product_event, parse_text_delta, run_scope, strip_prefix,
}
use jupyter_plugin_aitermina.Protocol.DshSound.{IsSound}
use jupyter_plugin_aitermina.Protocol.DshLaws.{parse_dsh_product_event-IsSound}
use jupyter_plugin_aitermina.Protocol.DshParse.{require_string, member}
use jupyter_plugin_aitermina.Protocol.Streaming.{text_overwrites_unnumbered}

message_one : Option Text → Text → ServerEvent
message_one m t = ServerEvent.text none m t

abbrev one_chat : Chat
one_chat = record {
  blocks = text_block (codes "text-a") (codes "old") (some (codes "a")) ∷ [];
  event_counter = 3;
}

apply_server_event-Extends_example :
    Extends one_chat.blocks
      (apply_server_event (ServerEvent.denied none (codes "rm") (codes "no")) one_chat).blocks
apply_server_event-Extends_example =
    apply_server_event-Extends (ServerEvent.denied none (codes "rm") (codes "no")) one_chat

not_empty : codes "b" ≢ []
not_empty e = cc

true_ne : true ≢ false
true_ne e = cc

code_ne : codes "text-a" ≢ codes "text-" ++ codes "b"
unfolding text_eq
code_ne e = true_ne (ap (text_eq (codes "text-a")) e)

other_id :
    block_id (text_block (codes "text-a") (codes "old") (some (codes "a")))
    ≢ codes "text-" ++ codes "b"
unfolding block_id
other_id = code_ne

abbrev unnumbered_chat : Chat
unfolding numbered
unnumbered_chat = record {
  blocks = text_block (numbered (codes "text") 7) (codes "old") none ∷ [];
  event_counter = 7;
}

text_overwrites_unnumbered_example :
    let message = λ (s : Text). ServerEvent.text none (some (decimal 7)) s in
    (apply_server_event
      (message (codes "yes"))
      (apply_server_event (message (codes "y")) unnumbered_chat)).blocks
    ≡ text_block (numbered (codes "text") 7) (codes "yes") none
      ∷ text_block (numbered (codes "text") 7) (codes "yes") (some (decimal 7))
      ∷ []
unfolding unnumbered_chat
text_overwrites_unnumbered_example =
    text_overwrites_unnumbered 7 (codes "old") (codes "y") (codes "yes") none unnumbered_chat refl

abbrev raw_delta : Value
raw_delta = obj (
    field (codes "type") (str (codes "dsh/v1/text.delta")) (
      field (codes "sessionId") (str (codes "s")) (
        field (codes "runtimeId") (str (codes "r")) (
          field (codes "runId") (str (codes "n")) (
            field (codes "messageId") (str (codes "m"))
              (field (codes "delta") (str (codes "hi")) end))))))

abbrev delta_scope : RunScope
delta_scope = record { session_id = codes "s"; runtime_id = codes "r"; run_id = codes "n" }

raw_delta-parsed :
    parse_dsh_product_event raw_delta ≡ parsed (text_delta delta_scope (codes "m") (codes "hi"))
unfolding parse_dsh_product_event parse_text_delta run_scope require_string get strip_prefix
    index_of index_of_from text_eq member
raw_delta-parsed = refl

parse_dsh_product_event-IsSound_example : IsSound (text_delta delta_scope (codes "m") (codes "hi"))
parse_dsh_product_event-IsSound_example =
    parse_dsh_product_event-IsSound raw_delta (text_delta delta_scope (codes "m") (codes "hi"))
      raw_delta-parsed
