-- ===== src/Vm/Operators.antt =====
-- src/vm/VM.cpp, `VM::run`: the opcodes of the operators, on the values of Vm/Value.antt. A result that
-- is a new array or mapping is what it holds. The arithmetic of doubles and shifts of 64-bit integers
-- are the compiler's and the machine's, and stand in a record.
pub mod Mappings
pub mod Laws
use kjdmud.Base.{
  ℕ, zero, suc, ◌+◌, ◌-◌, ◌*◌, ◌/◌, ◌%◌, Bool, true, false, not, ◌&&◌, ◌||◌, List, [], ◌∷◌, ◌++◌,
  Option, none, some, if◌then◌else◌, ◌==◌, ℤ, pos, negsuc, String,
}
use kjdmud.Core.Text.{Text, codes}
use kjdmud.Core.Decimal.{to_string}
use kjdmud.Vm.Value.{
  Value, Items, void, nil, int, float, str, symbol, object, null_array, null_mapping, null_closure,
  null_buffer, array, mapping, closure, buffer, no_items, item, is_zero, values_equal,
}
use kjdmud.Vm.Bytecode.{
  OpCode, eq, neq, lt, lte, gt, gte, add, sub, mul, div, modulo, bit_and, bit_or, bit_xor, shl, shr,
}
use kjdmud.Vm.Store.{Thrown, lpc_error, Outcome, value, thrown}
use kjdmud.Vm.Operators.Mappings.{union_mappings, KeyedMap, keyed}

-- Doubles as bit patterns; `truncated` is the cast to `int64_t`, `fixed` the format "%f".
pub record Doubles : Type 0 where
  pub of_int : ℤ → ℕ
  pub truncated : ℕ → ℤ
  pub plus : ℕ → ℕ → ℕ
  pub minus : ℕ → ℕ → ℕ
  pub times : ℕ → ℕ → ℕ
  pub divided : ℕ → ℕ → ℕ
  pub fmod : ℕ → ℕ → ℕ
  pub less : ℕ → ℕ → Bool
  pub less_eq : ℕ → ℕ → Bool
  pub fixed : ℕ → Text
  pub shift_left : ℤ → ℤ → ℤ
  pub shift_right : ℤ → ℤ → ℤ

abbrev pub is_member : Value → Items → Bool
is_member x no_items = false
is_member x (item y ys) = if values_equal x y then true else is_member x ys

-- The items that are, or are not, in the other array, in order.
unfoldable pub items_in : Bool → Items → Items → Items
items_in found no_items ys = no_items
items_in found (item x xs) ys =
    let rest = items_in found xs ys in
    if is_member x ys
    then (if found then item x rest else rest)
    else (if found then rest else item x rest)

unfoldable pub items_append : Items → Items → Items
items_append no_items ys = ys
items_append (item x xs) ys = item x (items_append xs ys)

-- `|` of arrays: the left items, and then each right one that is not among them.
unfoldable pub items_or : Items → Items → Items
unfolding items_append items_in
items_or xs ys = items_append xs (items_in false ys xs)

-- The items behind a shared pointer to an array, null too; `none` for other values.
abbrev pub items_of : Value → Option Items
items_of null_array = some no_items
items_of (array xs) = some xs
items_of _ = none

-- A 64-bit word, and its bits combined one by one.
abbrev pub word : ℤ → ℕ
word (pos n) = n
word (negsuc n) = 18446744073709551615 - n

abbrev pub of_word : ℕ → ℤ
of_word w = if (w / 9223372036854775808) == 0 then pos w else negsuc (18446744073709551615 - w)

unfoldable pub zip_bits : (ℕ → ℕ → ℕ) → ℕ → ℕ → ℕ → ℕ
zip_bits f zero a b = 0
zip_bits f (suc n) a b = f (a % 2) (b % 2) + 2 * zip_bits f n (a / 2) (b / 2)

unfoldable pub and_words : ℤ → ℤ → ℤ
unfolding zip_bits
and_words a b = of_word (zip_bits ◌*◌ 64 (word a) (word b))

unfoldable pub or_words : ℤ → ℤ → ℤ
unfolding zip_bits
or_words a b = of_word (zip_bits (λ x y. x + y - x * y) 64 (word a) (word b))

unfoldable pub xor_words : ℤ → ℤ → ℤ
unfolding zip_bits
xor_words a b = of_word (zip_bits (λ x y. (x + y) % 2) 64 (word a) (word b))

abbrev pub truth : Bool → Value
truth true = int (pos 1)
truth false = int (pos 0)

abbrev pub is_float : Value → Bool
is_float (float d) = true
is_float _ = false

-- `data.index()`.
abbrev pub kind_index : Value → ℕ
kind_index void = 0
kind_index nil = 1
kind_index (int i) = 2
kind_index (float d) = 3
kind_index (str s) = 4
kind_index (symbol s) = 5
kind_index (object o) = 6
kind_index null_array = 7
kind_index (array xs) = 7
kind_index null_mapping = 8
kind_index (mapping w es) = 8
kind_index null_closure = 9
kind_index (closure a h xs) = 9
kind_index null_buffer = 10
kind_index (buffer a bs) = 10

abbrev pub unsupported_operands : Value → Value → Text
unsupported_operands l r =
    codes "Add: unsupported operand types (lhs kind "
    ++ (to_string (pos (kind_index l))
        ++ (codes ", rhs kind " ++ (to_string (pos (kind_index r)) ++ codes ")")))

abbrev pub throw : String → Outcome Value Value
throw message = thrown (lpc_error (codes message))

module _ (doubles : Doubles) (filename : ℕ → Text) where
  abbrev pub object_name : Option ℕ → Text
  object_name none = []
  object_name (some a) = filename a

  unfoldable pub as_arithmetic_operand : Value → Option ℕ
  as_arithmetic_operand (int i) = some (doubles.of_int i)
  as_arithmetic_operand (float d) = some d
  as_arithmetic_operand void = some 0
  as_arithmetic_operand _ = none

  -- `none` for a value that no caller hands over.
  unfoldable pub format_number_for_concat : Value → Option Text
  format_number_for_concat (int i) = some (to_string i)
  format_number_for_concat (float d) = some (doubles.fixed d)
  format_number_for_concat void = some (codes "0")
  format_number_for_concat _ = none

  -- A number, as a double if one of the operands was one.
  unfoldable pub number_of : Value → Value → ℕ → Value
  number_of l r d = if is_float l || is_float r then float d else int (doubles.truncated d)

  unfoldable pub compared : OpCode → ℕ → ℕ → Bool
  compared lt a b = doubles.less a b
  compared lte a b = doubles.less_eq a b
  compared gt a b = doubles.less b a
  compared gte a b = doubles.less_eq b a
  compared _ a b = false

  unfoldable pub compare_values : OpCode → Value → Value → Outcome Value Value
  unfolding as_arithmetic_operand compared
  compare_values op l r = elim (as_arithmetic_operand l) [
    | none ↦ throw "comparison: left operand is not numeric"
    | some a ↦ elim (as_arithmetic_operand r) [
      | none ↦ throw "comparison: right operand is not numeric"
      | some b ↦ value (truth (compared op a b))
    ]
  ]

  unfoldable pub combined : OpCode → ℕ → ℕ → ℕ
  combined sub a b = doubles.minus a b
  combined mul a b = doubles.times a b
  combined div a b = doubles.divided a b
  combined modulo a b = doubles.fmod a b
  combined _ a b = 0

  -- A division by zero, with its message.
  abbrev pub zero_error : OpCode → ℕ → Option String
  zero_error div b = if is_zero b then some "Div: division by zero" else none
  zero_error modulo b = if is_zero b then some "Mod: modulo by zero" else none
  zero_error _ b = none

  unfoldable pub arithmetic : OpCode → Value → Value → Outcome Value Value
  unfolding as_arithmetic_operand combined number_of
  arithmetic op l r = elim (as_arithmetic_operand l) [
    | none ↦ throw "arithmetic: left operand is not numeric"
    | some a ↦ elim (as_arithmetic_operand r) [
      | none ↦ throw "arithmetic: right operand is not numeric"
      | some b ↦ elim (zero_error op b) [
        | some message ↦ throw message
        | none ↦ value (number_of l r (combined op a b))
      ]
    ]
  ]

  -- Two arrays, or the operation for other values.
  abbrev pub on_arrays :
      Value → Value → (Items → Items → Items) → Outcome Value Value → Outcome Value Value
  on_arrays l r f other = elim (items_of l) [
    | none ↦ other
    | some xs ↦ elim (items_of r) [ none ↦ other | some ys ↦ value (array (f xs ys)) ]
  ]

  unfoldable pub subtract : Value → Value → Outcome Value Value
  unfolding items_in arithmetic
  subtract l r = on_arrays l r (items_in false) (arithmetic sub l r)

  abbrev pub on_ints : Value → Value → (ℤ → ℤ → ℤ) → Outcome Value Value → Outcome Value Value
  on_ints (int a) (int b) f other = value (int (f a b))
  on_ints _ _ f other = other

  -- Two numbers, mappings or what cannot be added.
  unfoldable pub add_others : Value → Value → Outcome Value Value
  unfolding as_arithmetic_operand number_of union_mappings
  add_others l r = elim (as_arithmetic_operand l) [
    | some a ↦ elim (as_arithmetic_operand r) [
      | some b ↦ value (number_of l r (doubles.plus a b))
      | none ↦ thrown (lpc_error (unsupported_operands l r))
    ]
    | none ↦ elim (keyed l) [
      | none ↦ thrown (lpc_error (unsupported_operands l r))
      | some m ↦ elim (keyed r) [
        | none ↦ thrown (lpc_error (unsupported_operands l r))
        | some n ↦ union_mappings m n
      ]
    ]
  ]

  abbrev pub or_others : Option Text → (Text → Text) → Value → Value → Outcome Value Value
  or_others (some s) f l r = value (str (f s))
  or_others none f l r = add_others l r

  unfoldable pub add_values : Value → Value → Outcome Value Value
  unfolding format_number_for_concat add_others items_append
  add_values (str s) (str t) = value (str (s ++ t))
  add_values (str s) (object o) = value (str (s ++ object_name o))
  add_values (object o) (str t) = value (str (object_name o ++ t))
  add_values (str s) r = or_others (format_number_for_concat r) (λ t. s ++ t) (str s) r
  add_values l (str t) = or_others (format_number_for_concat l) (λ s. s ++ t) l (str t)
  add_values l r = on_arrays l r items_append (add_others l r)

  -- A binary opcode.
  unfoldable pub operate : OpCode → Value → Value → Outcome Value Value
  unfolding compare_values arithmetic subtract add_values items_in items_or and_words or_words
      xor_words
  operate eq l r = value (truth (values_equal l r))
  operate neq l r = value (truth (not (values_equal l r)))
  operate add l r = add_values l r
  operate sub l r = subtract l r
  operate mul l r = arithmetic mul l r
  operate div l r = arithmetic div l r
  operate modulo l r = arithmetic modulo l r
  operate bit_and l r =
      on_arrays l r (items_in true)
        (on_ints l r and_words (throw "BitAnd: operands must both be ints or both be arrays"))
  operate bit_or l r =
      on_arrays l r items_or
        (on_ints l r or_words (throw "BitOr: operands must both be ints or both be arrays"))
  operate bit_xor l r = on_ints l r xor_words (throw "BitXor: operands must both be ints")
  operate shl l r = on_ints l r doubles.shift_left (throw "Shl: operands must both be ints")
  operate shr l r = on_ints l r doubles.shift_right (throw "Shr: operands must both be ints")
  operate op l r = compare_values op l r

-- `~`.
unfoldable pub complement : Value → Outcome Value Value
complement (int (pos n)) = value (int (negsuc n))
complement (int (negsuc n)) = value (int (pos n))
complement _ = throw "Bad argument to ~"
