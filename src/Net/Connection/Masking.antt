-- ===== src/Net/Connection/Masking.antt =====
-- A client masks its text with a key of four octets, as the WebSocket protocol says, and `unmask` takes
-- the mask away.
use Prim.Native.Nat.{bit_xor}
use kjdmud.Base.{
  ℕ, zero, suc, ◌%◌, ◌<◌, ◌≡◌, refl, sym, ap, ap₂, ◌∙◌, Bool, true, false, [], ◌∷◌, ◌==◌,
  if◌then◌else◌, All, arith, length, ==_iff,
}
use kjdmud.Core.Text.{Text}
use kjdmud.Net.Connection.Frames.{unmask}

abbrev pub AreBytes : Text → Type 0
AreBytes s = All (λ b. b < 256) s

-- The octet of the key that masks an octet of the text, by the index modulo 4.
abbrev pub key_octet : ℕ → ℕ → ℕ → ℕ → ℕ → ℕ
key_octet a b c d zero = a
key_octet a b c d (suc zero) = b
key_octet a b c d (suc (suc zero)) = c
key_octet a b c d (suc (suc (suc i))) = d

-- Octet `i` is combined with octet `i mod 4` of the key.
unfoldable pub mask_text : ℕ → ℕ → ℕ → ℕ → ℕ → Text → Text
mask_text a b c d i [] = []
mask_text a b c d i (x ∷ s) = bit_xor x (key_octet a b c d (i % 4)) ∷ mask_text a b c d (suc i) s

-- Is a byte what it was when it is masked twice, with each of the masks below a bound?
comes_back : ℕ → ℕ → Bool
comes_back byte zero = true
comes_back byte (suc mask) =
    let rest = comes_back byte mask in
    if bit_xor (bit_xor byte mask) mask == byte then rest else false

come_back : ℕ → ℕ → Bool
unfolding comes_back
come_back masks zero = true
come_back masks (suc byte) =
    let rest = come_back masks byte in if comes_back byte masks then rest else false

masked_twice :
    (bound byte mask : ℕ)
    → comes_back byte bound ≡ true
    → mask < bound
    → (bit_xor (bit_xor byte mask) mask == byte) ≡ true
unfolding comes_back
masked_twice zero byte mask table below = absurd (omega arith)
masked_twice (suc bound) byte mask table below = ground (arith, masked_twice bound byte mask)

each_comes_back :
    (masks bound byte : ℕ)
    → come_back masks bound ≡ true
    → byte < bound
    → comes_back byte masks ≡ true
unfolding come_back
each_comes_back masks zero byte table below = absurd (omega arith)
each_comes_back masks (suc bound) byte table below =
    ground (arith, each_comes_back masks bound byte)

bytes_come_back : come_back 256 256 ≡ true
unfolding come_back
bytes_come_back = refl

xor_twice : (x m : ℕ) → x < 256 → m < 256 → bit_xor (bit_xor x m) m ≡ x
xor_twice byte mask byte_bound mask_bound =
    let known = each_comes_back 256 256 byte bytes_come_back byte_bound in
    (==_iff (bit_xor (bit_xor byte mask) mask) byte).0 (masked_twice 256 byte mask known mask_bound)

key_octet_bound : (a b c d i : ℕ) → AreBytes (a ∷ b ∷ c ∷ d ∷ []) → key_octet a b c d i < 256
key_octet_bound a b c d zero h = h.0
key_octet_bound a b c d (suc zero) h = h.1.0
key_octet_bound a b c d (suc (suc zero)) h = h.1.1.0
key_octet_bound a b c d (suc (suc (suc i))) h = h.1.1.1.0

unmask-mask_from :
    (a b c d i : ℕ) (s : Text)
    → AreBytes (a ∷ b ∷ c ∷ d ∷ [])
    → AreBytes s
    → (let k : ℕ → ℕ = λ j. key_octet a b c d (j % 4) in
        unmask (k i) (k (suc i)) (k (suc (suc i))) (k (suc (suc (suc i)))) (mask_text a b c d i s))
      ≡ s
unfolding unmask mask_text
unmask-mask_from a b c d i [] key h = refl
unmask-mask_from a b c d i (x ∷ s) key h =
    let k : ℕ → ℕ = λ j. key_octet a b c d (j % 4) in
    let around : (suc (suc (suc (suc i)))) % 4 ≡ i % 4 = omega arith in
    ap₂ (λ y t. y ∷ t) (xor_twice x (k i) h.0 (key_octet_bound a b c d (i % 4) key))
      (ap
          (λ r.
            unmask (k (suc i)) (k (suc (suc i))) (k (suc (suc (suc i)))) (key_octet a b c d r)
              (mask_text a b c d (suc i) s))
          (sym around)
        ∙ unmask-mask_from a b c d (suc i) s key h.1)

pub unmask-mask_text :
    (a b c d : ℕ) (s : Text)
    → AreBytes (a ∷ b ∷ c ∷ d ∷ s)
    → unmask a b c d (mask_text a b c d 0 s) ≡ s
unmask-mask_text a b c d s (ha, (hb, (hc, (hd, hs)))) =
    unmask-mask_from a b c d 0 s (ha, (hb, (hc, (hd, tt)))) hs

pub length-mask_text : (a b c d i : ℕ) (s : Text) → length (mask_text a b c d i s) ≡ length s
unfolding mask_text
length-mask_text a b c d i [] = refl
length-mask_text a b c d i (x ∷ s) = ap suc (length-mask_text a b c d (suc i) s)
