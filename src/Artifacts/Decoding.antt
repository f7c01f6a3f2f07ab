-- ===== src/Artifacts/Decoding.antt =====
-- `decodeURIComponent`, as src/agent/artifacts.ts calls it.
use Prim.Native.Nat.{◌/◌, ◌%◌}
use jupyter_plugin_aitermina.Base.{
  ℕ, Text, Option, Bool, if◌then◌else◌, leb, ltb, some, ◌*◌, ◌==◌, [], none, ◌&&◌, ◌∷◌, ◌+◌, not,
  ◌-◌, ◌++◌,
}
use jupyter_plugin_aitermina.Protocol.DshParse.{◌>>=◌}

-- A code point of UTF-8 that is being read: how many bytes are left, the bits so far and the least
-- code point for so many bytes. With no byte left the next one is a first byte.
pub record Sequence : Type 0 where
  pub left : ℕ
  pub value : ℕ
  pub least : ℕ

-- Between code points, between the bytes of one, after a percent sign, and after its first digit.
pub data DecodeState : Type 0 where
  plain : DecodeState
  continuing : Sequence → DecodeState
  after_percent : Sequence → DecodeState
  after_digit : ℕ → Sequence → DecodeState

abbrev pub first_byte : Sequence
first_byte = record { left = 0; value = 0; least = 0 }

unfoldable pub hex_digit : ℕ → Option ℕ
hex_digit c =
    if leb 48 c && leb c 57
    then some (c - 48)
    else if leb 65 c && leb c 70
    then some (c - 55)
    else if leb 97 c && leb c 102
    then some (c - 87)
    else none

-- The code units of a code point.
unfoldable pub utf16 : ℕ → Text
utf16 n =
    if ltb n 0x10000
    then n ∷ []
    else (0xd800 + (n - 0x10000) / 0x400) ∷ (0xdc00 + (n - 0x10000) % 0x400) ∷ []

abbrev pub is_code_point : ℕ → ℕ → Bool
is_code_point least n = leb least n && leb n 0x10ffff && not (leb 0xd800 n && leb n 0xdfff)

-- What a first byte gives: code units and the next state.
unfoldable pub take_first : ℕ → Option (Text × DecodeState)
take_first b =
    if ltb b 0x80
    then some (b ∷ [], plain)
    else if leb 0xc0 b && ltb b 0xe0
    then some ([], continuing (record { left = 1; value = b - 0xc0; least = 0x80 }))
    else if leb 0xe0 b && ltb b 0xf0
    then some ([], continuing (record { left = 2; value = b - 0xe0; least = 0x800 }))
    else if leb 0xf0 b && ltb b 0xf8
    then some ([], continuing (record { left = 3; value = b - 0xf0; least = 0x10000 }))
    else none

unfoldable pub take_next : ℕ → Sequence → Option (Text × DecodeState)
unfolding utf16
take_next b q =
    let value = q.value * 64 + (b - 0x80) in
    if not (leb 0x80 b && ltb b 0xc0)
    then none
    else if not (q.left == 1)
    then some ([], continuing (record q { left = q.left - 1; value = value }))
    else if is_code_point q.least value
    then some (utf16 value, plain)
    else none

abbrev pub take_byte : ℕ → Sequence → Option (Text × DecodeState)
take_byte b q = if q.left == 0 then take_first b else take_next b q

unfoldable pub decode_unit : DecodeState → ℕ → Option (Text × DecodeState)
unfolding hex_digit take_first take_next
decode_unit plain c = if c == 37 then some ([], after_percent first_byte) else some (c ∷ [], plain)
decode_unit (continuing q) c = if c == 37 then some ([], after_percent q) else none
decode_unit (after_percent q) c = elim (hex_digit c) [
  | none ↦ none
  | some high ↦ some ([], after_digit high q)
]
decode_unit (after_digit high q) c = elim (hex_digit c) [
  | none ↦ none
  | some low ↦ take_byte (high * 16 + low) q
]

-- `none` where `decodeURIComponent` throws.
unfoldable pub decode_from : DecodeState → Text → Option Text
unfolding decode_unit
decode_from plain [] = some []
decode_from (continuing q) [] = none
decode_from (after_percent q) [] = none
decode_from (after_digit high q) [] = none
decode_from state (c ∷ s) = do
  (shown, next) ← decode_unit state c
  rest ← decode_from next s
  some (shown ++ rest)

unfoldable pub decode_uri_component : Text → Option Text
unfolding decode_from
decode_uri_component s = decode_from plain s
