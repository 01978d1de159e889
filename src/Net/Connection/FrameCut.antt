-- ===== src/Net/Connection/FrameCut.antt =====
-- How `cut_frame` cuts a buffer that begins with a frame.
use kjdmud.Base.{
  ℕ, ◌+◌, ◌%◌, ◌^◌, ◌<◌, ◌≡◌, refl, sym, ap, ◌∙◌, true, false, [], ◌∷◌, ◌++◌, append_assoc,
  drop-append, arith, length, length-append, take, drop, ltb,
}
use kjdmud.Core.Text.{Text}
use kjdmud.Net.Connection.Frames.{unmask, unmask_by, frame, cut_frame}

take-append : (xs ys : Text) → take (length xs) (xs ++ ys) ≡ xs
take-append [] ys = refl
take-append (x ∷ xs) ys = ap (λ t. x ∷ t) (take-append xs ys)

-- Behind two texts.
drop_two : (xs ys zs : Text) (n : ℕ) → n ≡ length xs + length ys → drop n (xs ++ (ys ++ zs)) ≡ zs
drop_two xs ys zs n h =
    ap (λ m. drop m (xs ++ (ys ++ zs))) (h ∙ sym (length-append xs ys))
    ∙ ap (drop (length (xs ++ ys))) (sym (append_assoc xs ys zs))
    ∙ drop-append (xs ++ ys) zs

pub cut_frame-plain :
    (opcode : ℕ) (head body rest : Text)
    → length head + length body < 2 ^ 64
    → cut_frame opcode false (length body) (length head) (head ++ (body ++ rest))
      ≡ frame opcode body rest
unfolding cut_frame
cut_frame-plain opcode head body rest h =
    let total : (length head + length body) % 2 ^ 64 ≡ length head + length body = omega arith in
    let size : length (head ++ (body ++ rest)) ≡ length head + length body + length rest =
      omega (arith, length-append head (body ++ rest), length-append body rest) in
    let whole : ltb (length (head ++ (body ++ rest))) (length head + length body) ≡ false =
      ground (arith, size) in
    let behind : ltb (length (head ++ (body ++ rest))) (length head) ≡ false =
      ground (arith, size) in
    rw
      (
        total,
        whole,
        behind,
        drop-append head (body ++ rest),
        take-append body rest,
        drop_two head body rest (length head + length body) refl,
      )
      refl

pub cut_frame-masked :
    (opcode a b c d : ℕ) (head body rest : Text)
    → length head + 4 + length body < 2 ^ 64
    → cut_frame opcode true
        (length body)
        (length head)
        (head ++ ((a ∷ b ∷ c ∷ d ∷ []) ++ (body ++ rest)))
      ≡ frame opcode (unmask a b c d body) rest
unfolding cut_frame unmask_by
cut_frame-masked opcode a b c d head body rest h =
    let mask : Text = a ∷ b ∷ c ∷ d ∷ [] in
    let total : (length head + 4 + length body) % 2 ^ 64 ≡ length head + 4 + length body =
      omega arith in
    let size : length (head ++ (mask ++ (body ++ rest)))
        ≡ length head + 4 + length body + length rest =
      omega (arith, length-append head (mask ++ (body ++ rest)), length-append body rest) in
    let whole : ltb (length (head ++ (mask ++ (body ++ rest)))) (length head + 4 + length body)
        ≡ false =
      ground (arith, size) in
    let behind : ltb (length (head ++ (mask ++ (body ++ rest)))) (length head + 4) ≡ false =
      ground (arith, size) in
    rw
      (
        total,
        whole,
        behind,
        drop-append head (mask ++ (body ++ rest)),
        drop_two head mask (body ++ rest) (length head + 4) refl,
        take-append body rest,
        drop_two head (mask ++ body) rest (length head + 4 + length body) (omega arith),
      )
      refl
