-- ===== src/Net/Connection/FrameHead.antt =====
-- The length in the head of a frame is read as it is written.
use kjdmud.Base.{
  ℕ, ◌+◌, ◌*◌, ◌/◌, ◌%◌, ◌^◌, ◌<◌, ◌≤◌, ◌≡◌, refl, ap, leb→le, ◌∙◌, Bool, true, false, [], ◌∷◌,
  ◌++◌, if◌then◌else◌, arith, Bool-cases, inl, inr, length, leb, some,
}
use kjdmud.Core.Text.{Text}
use kjdmud.Net.Connection.Output.{big_endian}
use kjdmud.Net.Connection.Frames.{read_big_endian, read_length, cut_frame, parse_frame}

-- The length bytes of a frame, the first of them with the mask bit, 0 or 128.
unfoldable pub length_bytes : ℕ → ℕ → Text
unfolding big_endian
length_bytes mask_bit len =
    if leb len 125
    then (mask_bit + len) ∷ []
    else if leb len 65535
    then (mask_bit + 126) ∷ big_endian 2 len
    else (mask_bit + 127) ∷ big_endian 8 len

abbrev pub head_bytes : ℕ → ℕ → ℕ → Text
head_bytes opcode mask_bit len = (128 + opcode) ∷ length_bytes mask_bit len

abbrev pub mask_bit : Bool → ℕ
mask_bit true = 128
mask_bit false = 0

two_bytes : (n : ℕ) → n < 2 ^ 16 → (0 * 256 + n / 256 ^ 1 % 256) * 256 + n / 256 ^ 0 % 256 ≡ n
two_bytes n h = omega arith

-- A frame whose length is read is cut by that length.
parse_frame-length :
    (opcode y len size : ℕ) (s : Text)
    → opcode < 16
    → read_length (y % 128) s ≡ some (len, size)
    → parse_frame ((128 + opcode) ∷ y ∷ s)
      ≡ cut_frame opcode (leb 128 y) len size ((128 + opcode) ∷ y ∷ s)
unfolding parse_frame
parse_frame-length opcode y len size s h k =
    let low : (128 + opcode) % 16 ≡ opcode = omega arith in rw (k, parse_frame, low) refl

read_length-short : (len : ℕ) (s : Text) → len ≤ 125 → read_length len s ≡ some (len, 2)
unfolding read_length
read_length-short len s h = ground arith

read_length-two :
    (len : ℕ) (t : Text) → len < 2 ^ 16 → read_length 126 (big_endian 2 len ++ t) ≡ some (len, 4)
unfolding read_length read_big_endian big_endian
read_length-two len t h = rw (two_bytes len h) refl

-- The last four bytes of a number, behind the rest of it, and the first four.
join_four :
    (n : ℕ)
    → (((n / 4294967296 * 256 + n / 16777216 % 256) * 256 + n / 65536 % 256) * 256 + n / 256 % 256)
          * 256
        + n / 1 % 256
      ≡ n
join_four n = omega arith

high_four :
    (n : ℕ)
    → n < 2 ^ 64
    → (((0 * 256 + n / 72057594037927936 % 256) * 256 + n / 281474976710656 % 256) * 256
            + n / 1099511627776 % 256)
          * 256
        + n / 4294967296 % 256
      ≡ n / 4294967296
high_four n h = omega arith

read_length-eight :
    (len : ℕ) (t : Text) → len < 2 ^ 63 → read_length 127 (big_endian 8 len ++ t) ≡ some (len, 10)
unfolding read_length read_big_endian big_endian
read_length-eight len t h = rw (high_four len (omega arith), join_four len) refl

mask_bit_low : (m : Bool) (k : ℕ) → k < 128 → (mask_bit m + k) % 128 ≡ k
mask_bit_low true k h = omega arith
mask_bit_low false k h = omega arith

mask_bit_high : (m : Bool) (k : ℕ) → k < 128 → leb 128 (mask_bit m + k) ≡ m
mask_bit_high true k h = ground arith
mask_bit_high false k h = ground arith

parse_frame-first :
    (opcode k len size : ℕ) (m : Bool) (s : Text)
    → opcode < 16
    → k < 128
    → read_length k s ≡ some (len, size)
    → parse_frame ((128 + opcode) ∷ (mask_bit m + k) ∷ s)
      ≡ cut_frame opcode m len size ((128 + opcode) ∷ (mask_bit m + k) ∷ s)
parse_frame-first opcode k len size m s h below e =
    parse_frame-length opcode (mask_bit m + k) len size s h
      (ap (λ j. read_length j s) (mask_bit_low m k below) ∙ e)
    ∙ ap (λ b. cut_frame opcode b len size ((128 + opcode) ∷ (mask_bit m + k) ∷ s))
        (mask_bit_high m k below)

pub parse_frame-head :
    (opcode len : ℕ) (m : Bool) (t : Text)
    → opcode < 16
    → len < 2 ^ 63
    → parse_frame (head_bytes opcode (mask_bit m) len ++ t)
      ≡ cut_frame opcode m len
          (length (head_bytes opcode (mask_bit m) len))
          (head_bytes opcode (mask_bit m) len ++ t)
unfolding length_bytes
parse_frame-head opcode len m t h k = elim (Bool-cases (leb len 125)) [
  | inl short ↦
      let small : len ≤ 125 = leb→le len 125 short in
      rw short
        (parse_frame-first opcode len len 2 m t h (omega arith) (read_length-short len t small))
  | inr more ↦ elim (Bool-cases (leb len 65535)) [
    | inl medium ↦
        let small : len ≤ 65535 = leb→le len 65535 medium in
        rw (more, medium)
          (unfold big_endian in
            parse_frame-first opcode 126 len 4 m (big_endian 2 len ++ t) h (omega arith)
              (read_length-two len t (omega arith)))
    | inr long ↦
        rw (more, long)
          (unfold big_endian in
            parse_frame-first opcode 127 len 10 m (big_endian 8 len ++ t) h (omega arith)
              (read_length-eight len t k))
  ]
]
