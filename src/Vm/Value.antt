-- ===== src/Vm/Value.antt =====
-- include/kjdmud/vm/Value.hpp and src/vm/Value.cpp: the values of LPC, their truth and equality.
pub mod Equality
pub mod Editing
use kjdmud.Base.{
  ℕ, ◌≡◌, Bool, true, false, not, ◌&&◌, ◌||◌, List, [], ◌∷◌, Option, none, some, ◌==◌,
  if◌then◌else◌, ℤ, pos, negsuc, eqb_ℤ, leb, ltb, ◌%◌, ◌^◌,
}
use kjdmud.Core.Text.{Text, text_eq}

-- The fields of a `Closure` but its bound arguments. `quoted` is whether `lambdaBody` is not void.
pub record ClosureHead : Type 0 where
  pub owner : Option ℕ
  pub function_name : Text
  pub force_efun : Bool
  pub unbound_until_bound : Bool
  pub quoted : Bool

-- `ValueVariant`. A double is its IEEE 754 bit pattern. An object is its address. Arrays, mappings,
-- closures and buffers are shared pointers: null, or the address where equality reads it, and what
-- the pointer leads to. The two flags of `Value` are not kept: nothing modelled reads them.
mutual
  pub data Value : Type 0 where
    void nil : Value
    int : ℤ → Value
    float : ℕ → Value
    str : Text → Value
    symbol : Text → Value
    object : Option ℕ → Value
    null_array null_mapping null_closure null_buffer : Value
    array : Items → Value
    mapping : ℕ → Entries → Value
    closure : ℕ → ClosureHead → Items → Value
    buffer : ℕ → List ℕ → Value

  pub data Items : Type 0 where
    no_items : Items
    item : Value → Items → Items

  -- `absent`: the entry's index is past the end of `extraColumns`.
  pub data Columns : Type 0 where
    absent : Columns
    columns : Items → Columns

  pub data Entries : Type 0 where
    no_entries : Entries
    entry : Value → Value → Columns → Entries → Entries

-- The sign bit of a double, and the exponent bits.
abbrev pub sign_bit : ℕ
sign_bit = 9223372036854775808

abbrev pub infinity_bits : ℕ
infinity_bits = 9218868437227405312

-- `d == 0.0`, for the double of that bit pattern: +0 or -0.
abbrev pub is_zero : ℕ → Bool
is_zero d = d == 0 || d == sign_bit

abbrev pub is_nan : ℕ → Bool
is_nan d = ltb infinity_bits (d % sign_bit)

-- `a == b` of two doubles.
abbrev pub double_eq : ℕ → ℕ → Bool
double_eq a b = (is_zero a && is_zero b) || (a == b && not (is_nan a))

abbrev pub is_empty : Text → Bool
is_empty [] = true
is_empty (c ∷ s) = false

abbrev pub is_some {ℓ} : {A : Type ℓ} → Option A → Bool
is_some none = false
is_some (some a) = true

unfoldable pub is_truthy : Value → Bool
is_truthy void = false
is_truthy nil = false
is_truthy (int i) = not (eqb_ℤ i (pos 0))
is_truthy (float d) = not (is_zero d)
is_truthy (str s) = not (is_empty s)
is_truthy (symbol s) = true
is_truthy (object o) = is_some o
is_truthy null_array = false
is_truthy (array xs) = true
is_truthy null_mapping = false
is_truthy (mapping w es) = true
is_truthy null_closure = false
is_truthy (closure a h xs) = true
is_truthy null_buffer = false
is_truthy (buffer a bs) = true

abbrev pub address_eq : Option ℕ → Option ℕ → Bool
address_eq none none = true
address_eq (some a) (some b) = a == b
address_eq _ _ = false

unfoldable pub values_equal : Value → Value → Bool
unfolding text_eq
values_equal void void = true
values_equal nil nil = true
values_equal (int a) (int b) = eqb_ℤ a b
values_equal (float a) (float b) = double_eq a b
values_equal (str s) (str t) = text_eq s t
values_equal (symbol s) (symbol t) = text_eq s t
values_equal (object a) (object b) = address_eq a b
values_equal null_closure null_closure = true
values_equal (closure a h xs) (closure b k ys) = a == b
values_equal null_buffer null_buffer = true
values_equal (buffer a xs) (buffer b ys) = a == b
values_equal _ _ = false
