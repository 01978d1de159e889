-- ===== src/Net/Connection/FrameLaws.antt =====
-- What a client frames, the decoder unframes.
use kjdmud.Base.{
  ℕ, zero, suc, ◌+◌, ◌^◌, ◌<◌, ◌≤◌, ◌≡◌, refl, sym, ap, ◌∙◌, true, false, List, [], ◌∷◌, ◌++◌,
  append_assoc, append-nil, ◌==◌, All, arith, length, length-append,
}
use kjdmud.Core.Text.{Text}
use kjdmud.Core.Errors.{ok}
use kjdmud.Net.Connection.State.{Connection}
use kjdmud.Net.Connection.Output.{big_endian, encode_ws_frame}
use kjdmud.Net.Connection.Frames.{
  frame, cut_frame, parse_frame, decode_loop, decode_ws_frames, answer, is_data,
}
use kjdmud.Net.Connection.FrameCut.{cut_frame-plain, cut_frame-masked}
use kjdmud.Net.Connection.Masking.{AreBytes, mask_text, unmask-mask_text, length-mask_text}
use kjdmud.Net.Connection.FrameHead.{length_bytes, head_bytes, parse_frame-head}

-- A client's frame: with a mask of four bytes, or, as the server's own, without.
pub data ClientFrame : Type 0 where
  masked : ℕ → ℕ → ℕ → ℕ → ℕ → Text → ClientFrame
  unmasked : Text → ClientFrame

abbrev pub payload_of : ClientFrame → Text
payload_of (masked opcode a b c d payload) = payload
payload_of (unmasked payload) = payload

-- Text, binary and continuation frames of bytes, of less than 2^63 of them.
abbrev pub IsDataFrame : ClientFrame → Type 0
IsDataFrame (masked opcode a b c d payload) =
    (is_data opcode ≡ true) × AreBytes (a ∷ b ∷ c ∷ d ∷ payload) × (length payload < 2 ^ 63)
IsDataFrame (unmasked payload) = length payload < 2 ^ 63

unfoldable pub print_frame : ClientFrame → Text
unfolding mask_text encode_ws_frame length_bytes
print_frame (masked opcode a b c d payload) =
    head_bytes opcode 128 (length payload) ++ (a ∷ b ∷ c ∷ d ∷ mask_text a b c d 0 payload)
print_frame (unmasked payload) = encode_ws_frame payload

abbrev pub opcode_of : ClientFrame → ℕ
opcode_of (masked opcode a b c d payload) = opcode
opcode_of (unmasked payload) = 1

length-length_bytes : (bit len : ℕ) → length (length_bytes bit len) ≤ 9
unfolding length_bytes big_endian
length-length_bytes bit len = ground arith

encode-head :
    (payload : Text) → encode_ws_frame payload ≡ head_bytes 1 0 (length payload) ++ payload
unfolding encode_ws_frame length_bytes
encode-head payload = let e : 0 + length payload ≡ length payload = omega arith in rw e refl

head-below : (opcode bit len : ℕ) → length (head_bytes opcode bit len) ≤ 10
head-below opcode bit len = omega (arith, length-length_bytes bit len)

is_data-below : (opcode : ℕ) → is_data opcode ≡ true → opcode < 16
is_data-below opcode h = ground arith

parse_frame-print :
    (f : ClientFrame) (rest : Text)
    → IsDataFrame f
    → parse_frame (print_frame f ++ rest) ≡ frame (opcode_of f) (payload_of f) rest
parse_frame-print (masked opcode a b c d payload) rest (data_op, bytes, size) =
    let head = head_bytes opcode 128 (length payload) in
    let mask : Text = a ∷ b ∷ c ∷ d ∷ [] in
    let body = mask_text a b c d 0 payload in
    let same : length body ≡ length payload = length-mask_text a b c d 0 payload in
    unfold print_frame in
    ap parse_frame (append_assoc head (mask ++ body) rest)
    ∙ parse_frame-head opcode (length payload) true (mask ++ (body ++ rest))
        (is_data-below opcode data_op) size
    ∙ ap (λ n. cut_frame opcode true n (length head) (head ++ (mask ++ (body ++ rest)))) (sym same)
    ∙ cut_frame-masked opcode a b c d head body rest
        (omega (arith, same, head-below opcode 128 (length payload)))
    ∙ ap (λ t. frame opcode t rest) (unmask-mask_text a b c d payload bytes)
parse_frame-print (unmasked payload) rest size =
    let head = head_bytes 1 0 (length payload) in
    unfold print_frame in
    ap (λ t. parse_frame (t ++ rest)) (encode-head payload)
    ∙ ap parse_frame (append_assoc head payload rest)
    ∙ parse_frame-head 1 (length payload) false (payload ++ rest) (omega arith) size
    ∙ cut_frame-plain 1 head payload rest (omega (arith, head-below 1 0 (length payload)))

unfoldable pub print_frames : List ClientFrame → Text
unfolding print_frame
print_frames [] = []
print_frames (f ∷ frames) = print_frame f ++ print_frames frames

abbrev pub payloads : List ClientFrame → Text
payloads [] = []
payloads (f ∷ frames) = payload_of f ++ payloads frames

opcode-is_data : (f : ClientFrame) → IsDataFrame f → is_data (opcode_of f) ≡ true
opcode-is_data (masked opcode a b c d payload) h = h.0
opcode-is_data (unmasked payload) h = refl

is_data-open : (opcode : ℕ) → is_data opcode ≡ true → (opcode == 8) ≡ false
is_data-open opcode h = ground arith

answer-data :
    (opcode : ℕ) (text : Text) (c : Connection) → is_data opcode ≡ true → answer opcode text c ≡ c
unfolding answer
answer-data opcode text c h = let silent : (opcode == 9) ≡ false = ground arith in rw silent refl

pub decode_frame :
    (n opcode : ℕ) (payload text rest : Text) (c : Connection)
    → is_data opcode ≡ true
    → parse_frame c.ws_frame_buffer ≡ frame opcode text rest
    → decode_loop (suc n) payload c
      ≡ decode_loop n (payload ++ text) (record c { ws_frame_buffer = rest })
unfolding decode_loop
decode_frame n opcode payload text rest c h e =
    rw (e, decode_loop)
      (rw
        (is_data-open opcode h, h, answer-data opcode text (record c { ws_frame_buffer = rest }) h)
        refl)

cleared : (c : Connection) → c.ws_frame_buffer ≡ [] → c ≡ record c { ws_frame_buffer = [] }
cleared c e = ap (λ s. record c { ws_frame_buffer = s }) e

decode_nothing :
    (n : ℕ) (payload : Text) (c : Connection)
    → decode_loop (suc n) payload (record c { ws_frame_buffer = [] })
      ≡ ok (payload ++ [], record c { ws_frame_buffer = [] })
unfolding decode_loop parse_frame
decode_nothing n payload c = rw append-nil refl

print_frame-some : (f : ClientFrame) → 0 < length (print_frame f)
unfolding print_frame encode_ws_frame
print_frame-some (masked opcode a b c d payload) = omega arith
print_frame-some (unmasked payload) = omega arith

decode_loop-print :
    (n : ℕ) (frames : List ClientFrame) (payload : Text) (c : Connection)
    → All IsDataFrame frames
    → c.ws_frame_buffer ≡ print_frames frames
    → length (print_frames frames) < n
    → decode_loop n payload c ≡ ok (payload ++ payloads frames, record c { ws_frame_buffer = [] })
unfolding print_frames
decode_loop-print zero frames payload c h e b = absurd (omega arith)
decode_loop-print (suc n) [] payload c h e b =
    ap (decode_loop (suc n) payload) (cleared c e) ∙ decode_nothing n payload c
decode_loop-print (suc n) (f ∷ frames) payload c h e b =
    decode_frame n (opcode_of f) payload (payload_of f) (print_frames frames) c
      (opcode-is_data f h.0) (ap parse_frame e ∙ parse_frame-print f (print_frames frames) h.0)
    ∙ decode_loop-print n frames (payload ++ payload_of f)
        (record c { ws_frame_buffer = print_frames frames }) h.1 refl
        (omega (arith, length-append (print_frame f) (print_frames frames), print_frame-some f))
    ∙ ap (λ t. ok (t, record c { ws_frame_buffer = [] }))
        (append_assoc payload (payload_of f) (payloads frames))

-- The frames that a client sends, masked or not, are decoded to their payloads, one behind the other,
-- if each holds text, binary data or a continuation, of bytes, and fewer than 2^63 of them; so is what
-- the server itself encodes. The whole buffer is used up.
pub decode_ws_frames-print :
    (frames : List ClientFrame) (c : Connection)
    → All IsDataFrame frames
    → c.ws_frame_buffer ≡ []
    → decode_ws_frames (print_frames frames) c
      ≡ ok (payloads frames, record c { ws_frame_buffer = [] })
unfolding decode_ws_frames
decode_ws_frames-print frames c h e = rw e (
    decode_loop-print (suc (length (print_frames frames))) frames []
      (record c { ws_frame_buffer = print_frames frames }) h refl (omega arith))
