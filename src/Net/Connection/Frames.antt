-- ===== src/Net/Connection/Frames.antt =====
-- `Connection::decodeWsFrames`.
use Prim.Native.Nat.{bit_xor}
use kjdmud.Base.{
  ℕ, zero, suc, ◌+◌, ◌*◌, ◌%◌, ◌^◌, Bool, true, ◌||◌, [], ◌∷◌, ◌++◌, Option, none, some, length,
  leb, ltb, ◌==◌, if◌then◌else◌, take, drop,
}
use kjdmud.Core.Text.{Text}
use kjdmud.Core.Errors.{Result, ok, err, out_of_fuel, out_of_range}
use kjdmud.Net.Connection.State.{Connection, wrote, interrupted, failed}

-- `len = (len << 8) | byte` for `n` bytes.
unfoldable pub read_big_endian : ℕ → ℕ → Text → Option (ℕ × Text)
read_big_endian zero len s = some (len, s)
read_big_endian (suc n) len [] = none
read_big_endian (suc n) len (b ∷ s) = read_big_endian n (len * 256 + b) s

-- The length of a frame behind its two first bytes, and the size of the header so far.
unfoldable pub read_length : ℕ → Text → Option (ℕ × ℕ)
unfolding read_big_endian
read_length short s =
    if short == 126
    then (elim (read_big_endian 2 0 s) [ none ↦ none | some (len, rest) ↦ some (len, 4) ])
    else if short == 127
    then (elim (read_big_endian 8 0 s) [ none ↦ none | some (len, rest) ↦ some (len, 10) ])
    else some (short, 2)

-- `data[i] ^ mask[i % 4]`.
unfoldable pub unmask : ℕ → ℕ → ℕ → ℕ → Text → Text
unmask a b c d [] = []
unmask a b c d (x ∷ s) = bit_xor x a ∷ unmask b c d a s

unfoldable pub unmask_by : Text → Text → Text
unfolding unmask
unmask_by (a ∷ b ∷ c ∷ d ∷ []) s = unmask a b c d s
unmask_by _ s = s

-- The buffer holds no whole frame; `substr` throws; a frame, with the buffer behind it.
pub data Parsed : Type 0 where
  incomplete overrun : Parsed
  frame : ℕ → Text → Text → Parsed

-- `header + len` is a 64-bit number, and wraps.
unfoldable pub cut_frame : ℕ → Bool → ℕ → ℕ → Text → Parsed
unfolding unmask_by
cut_frame opcode masked len mask_off buffer =
    let header = if masked then mask_off + 4 else mask_off in
    let total = (header + len) % 2 ^ 64 in
    let payload = take len (drop header buffer) in
    if ltb (length buffer) total
    then incomplete
    else if ltb (length buffer) header
    then overrun
    else frame opcode
        (if masked then unmask_by (take 4 (drop mask_off buffer)) payload else payload)
        (drop total buffer)

unfoldable pub parse_frame : Text → Parsed
unfolding read_length cut_frame
parse_frame [] = incomplete
parse_frame (x ∷ []) = incomplete
parse_frame (x ∷ y ∷ s) = elim (read_length (y % 128) s) [
  | none ↦ incomplete
  | some (len, header) ↦ cut_frame (x % 16) (leb 128 y) len header (x ∷ y ∷ s)
]

-- One `rawWrite`, whose result is not looked at.
unfoldable pub write_once : Text → Connection → Connection
write_once wire c = elim c.outcomes [
  | [] ↦ c
  | wrote n ∷ outcomes ↦ record c { outcomes = outcomes; sent = c.sent ++ take n wire }
  | interrupted ∷ outcomes ↦ record c { outcomes = outcomes }
  | failed ∷ outcomes ↦ record c { outcomes = outcomes }
]

unfoldable pub pong : Text → Text
pong payload = if leb (length payload) 125 then 138 ∷ length payload ∷ payload else 138 ∷ 0 ∷ []

abbrev pub is_data : ℕ → Bool
is_data opcode = opcode == 1 || opcode == 2 || opcode == 0

unfoldable pub answer : ℕ → Text → Connection → Connection
unfolding write_once pong
answer opcode payload c = if opcode == 9 then write_once (pong payload) c else c

-- The loop of `decodeWsFrames` with fuel `n`; `payload` is what was decoded so far.
unfoldable pub decode_loop : ℕ → Text → Connection → Result (Text × Connection)
unfolding parse_frame answer
decode_loop zero payload c = err out_of_fuel
decode_loop (suc n) payload c = elim (parse_frame c.ws_frame_buffer) [
  | incomplete ↦ ok (payload, c)
  | overrun ↦ err out_of_range
  | frame opcode text rest ↦
      let d = answer opcode text (record c { ws_frame_buffer = rest }) in
      let more = decode_loop n (if is_data opcode then payload ++ text else payload) d in
      if opcode == 8 then ok (payload, record c { ws_frame_buffer = rest; closed = true }) else more
]

unfoldable pub decode_ws_frames : Text → Connection → Result (Text × Connection)
unfolding decode_loop
decode_ws_frames incoming c =
    let buffer = c.ws_frame_buffer ++ incoming in
    decode_loop (suc (length buffer)) [] (record c { ws_frame_buffer = buffer })
