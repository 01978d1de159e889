-- ===== src/Net/Connection/FrameStuck.antt =====
-- A frame whose announced length wraps around 64 bits.
use kjdmud.Base.{
  ◌+◌, ◌^◌, ◌≤◌, ℕ, zero, suc, ◌≡◌, refl, ap, ◌∙◌, true, false, ◌∷◌, ◌++◌, ◌%◌, take, drop, ltb,
  arith, length,
}
use kjdmud.Core.Text.{Text}
use kjdmud.Core.Errors.{err, out_of_fuel}
use kjdmud.Net.Connection.State.{Connection}
use kjdmud.Net.Connection.Frames.{
  read_big_endian, read_length, frame, cut_frame, parse_frame, decode_loop, is_data,
}
use kjdmud.Net.Connection.FrameLaws.{decode_frame}

-- The head of a frame without a mask of 2^64 - 10 bytes: with the ten bytes of the head they are 0.
abbrev pub wrapping : ℕ → Text → Text
wrapping first s = first ∷ 127 ∷ 255 ∷ 255 ∷ 255 ∷ 255 ∷ 255 ∷ 255 ∷ 255 ∷ 246 ∷ s

cut_frame-wrapping :
    (opcode len : ℕ) (buffer : Text)
    → (10 + len) % 2 ^ 64 ≡ 0
    → 10 ≤ length buffer
    → cut_frame opcode false len 10 buffer ≡ frame opcode (take len (drop 10 buffer)) buffer
unfolding cut_frame
cut_frame-wrapping opcode len buffer e h =
    let whole : ltb (length buffer) 0 ≡ false = ground arith in
    let behind : ltb (length buffer) 10 ≡ false = ground arith in rw (e, whole, behind) refl

parse_frame-wrapping :
    (first : ℕ) (s : Text)
    → parse_frame (wrapping first s)
      ≡ frame (first % 16) (take 18446744073709551606 s) (wrapping first s)
unfolding parse_frame read_length read_big_endian
parse_frame-wrapping first s =
    cut_frame-wrapping (first % 16) 18446744073709551606 (wrapping first s) refl (omega arith)

-- The decoder never ends on a data frame without a mask that announces 2^64 - 10 bytes: whatever the
-- fuel, it runs out, since the sum of head and length is 0 and nothing is taken from the buffer.
pub decode_loop_stuck :
    (first : ℕ) (s payload : Text) (c : Connection) (n : ℕ)
    → is_data (first % 16) ≡ true
    → c.ws_frame_buffer ≡ wrapping first s
    → decode_loop n payload c ≡ err out_of_fuel
decode_loop_stuck first s payload c zero h e = unfold decode_loop in refl
decode_loop_stuck first s payload c (suc n) h e =
    decode_frame n (first % 16) payload (take 18446744073709551606 s) (wrapping first s) c h
      (ap parse_frame e ∙ parse_frame-wrapping first s)
    ∙ decode_loop_stuck first s (payload ++ take 18446744073709551606 s)
        (record c { ws_frame_buffer = wrapping first s }) n h refl
