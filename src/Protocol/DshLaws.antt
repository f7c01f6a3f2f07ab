-- ===== src/Protocol/DshLaws.antt =====
-- src/agent/protocol.ts: what the parser of product events guarantees of an event that it accepts.
use jupyter_plugin_aitermina.Base.{
  Text, Option, List, some, ◌∷◌, [], All, arith, none, ◌≡◌, codes, inr, inl, Option-cases,
  Bool-cases, text_eq, subst, index_of, drop, ◌+◌,
}
use jupyter_plugin_aitermina.Protocol.Dsh.{ProductEvent, parsed}
use jupyter_plugin_aitermina.Protocol.DshParse.{member}
use jupyter_plugin_aitermina.Json.{Value, Fields, arr, obj, null, get, bool, str, num}
use jupyter_plugin_aitermina.Protocol.DshEvents.{
  event_kinds, parse_payload, parse_dsh_product_event, result_of, parse_versioned, parse_typed,
  strip_prefix,
}
use jupyter_plugin_aitermina.Protocol.DshReaders.{
  Reads, text_snapshot-Sound, text_delta-Sound, given, activity-Sound, missing, artifact-Sound,
  requested-Sound, resolved-Sound, cancelled-Sound, run_started-Sound, run_finished-Sound,
  connection-Sound, session-Sound, capabilities-Sound,
}
use jupyter_plugin_aitermina.Protocol.DshSound.{HoldsIf, IsSound}

-- Every reader of `event_kinds` gives sound events.
abbrev ReadersSound : List (Text × (Fields → Option ProductEvent)) → Type 0
ReadersSound = All λ r. (p : Fields) → Reads IsSound (r.1 p)

event_kinds-ReadersSound : ReadersSound event_kinds
event_kinds-ReadersSound = (
  text_snapshot-Sound,
  (
    text_delta-Sound,
    (
      activity-Sound,
      (
        artifact-Sound,
        (
          requested-Sound,
          (
            resolved-Sound,
            (
              cancelled-Sound,
              (
                run_started-Sound,
                (run_finished-Sound, (connection-Sound, (session-Sound, (capabilities-Sound, tt)))),
              ),
            ),
          ),
        ),
      ),
    ),
  ),
)

member-Sound :
    (kind : Text) (readers : List (Text × (Fields → Option ProductEvent)))
    → ReadersSound readers
    → HoldsIf (λ parse. (p : Fields) → Reads IsSound (parse p)) (member kind readers)
unfolding member
member-Sound kind [] h = tt
member-Sound kind ((k, parse) ∷ readers) (h, hs) = elim (Bool-cases (text_eq k kind)) [
  | inl e ↦ rw e h
  | inr e ↦ rw e (member-Sound kind readers hs)
]

result_of-IsSound :
    {r : Option ProductEvent} (e : ProductEvent)
    → Reads IsSound r
    → result_of r ≡ parsed e
    → IsSound e
result_of-IsSound e missing h = cc
result_of-IsSound e (given {a} sound) h = let same : a ≡ e = cc in subst IsSound same sound

parse_payload-IsSound :
    (kind : Text) (p : Fields) (e : ProductEvent) → parse_payload kind p ≡ parsed e → IsSound e
unfolding parse_payload
parse_payload-IsSound kind p e h = elim (Option-cases (member kind event_kinds)) [
  | inl k ↦ absurd (ground arith)
  | inr (parse, k) ↦
      let sound = (rw k at (member-Sound kind event_kinds event_kinds-ReadersSound)) p in
      result_of-IsSound e sound (ground arith)
]

parse_versioned-IsSound :
    (rest : Text) (p : Fields) (e : ProductEvent) → parse_versioned rest p ≡ parsed e → IsSound e
unfolding parse_versioned
parse_versioned-IsSound rest p e h = elim (Option-cases (index_of b'/' rest)) [
  | inl k ↦ absurd (ground arith)
  | inr (i, k) ↦ parse_payload-IsSound (drop (i + 1) rest) p e (ground arith)
]

parse_typed-IsSound :
    (type : Option Value) (p : Fields) (e : ProductEvent)
    → parse_typed type p ≡ parsed e
    → IsSound e
unfolding parse_typed
parse_typed-IsSound (some (str type)) p e h =
    elim (Option-cases (strip_prefix (codes "dsh/") type)) [
      | inl k ↦ absurd (ground arith)
      | inr (rest, k) ↦ parse_versioned-IsSound rest p e (ground arith)
    ]
parse_typed-IsSound (some null) p e h = cc
parse_typed-IsSound (some (bool b)) p e h = cc
parse_typed-IsSound (some (num n)) p e h = cc
parse_typed-IsSound (some (arr a)) p e h = cc
parse_typed-IsSound (some (obj o)) p e h = cc
parse_typed-IsSound none p e h = cc

-- An event that the parser accepts is sound: its identities and required texts are not empty, nor
-- are the optional texts that it has; a choice list is not empty and has no id twice; a created or
-- updated artifact has a locator or a reason; a duration is finite and not negative.
pub parse_dsh_product_event-IsSound :
    (raw : Value) (e : ProductEvent) → parse_dsh_product_event raw ≡ parsed e → IsSound e
unfolding parse_dsh_product_event
parse_dsh_product_event-IsSound (obj p) e h = parse_typed-IsSound (get (codes "type") p) p e h
parse_dsh_product_event-IsSound null e h = cc
parse_dsh_product_event-IsSound (bool b) e h = cc
parse_dsh_product_event-IsSound (num n) e h = cc
parse_dsh_product_event-IsSound (str s) e h = cc
parse_dsh_product_event-IsSound (arr a) e h = cc
