-- ===== src/Vm/Value/Equality.antt =====
-- The laws of `valuesEqual`, and how it goes with `isTruthy`.
use kjdmud.Base.{ℕ, ◌≡◌, refl, ◌∙◌, Bool, true, false, not, arith}
use kjdmud.Core.Text.{Text, text_eq, text_eq_iff, text_eq_self}
use kjdmud.Vm.Value.{
  Value, void, nil, int, float, str, symbol, object, null_array, null_mapping, null_closure,
  null_buffer, array, mapping, closure, buffer, values_equal, is_nan, double_eq,
}

-- What equals itself: all but arrays, mappings and NaN.
abbrev pub is_self_equal : Value → Bool
is_self_equal (float d) = not (is_nan d)
is_self_equal null_array = false
is_self_equal (array xs) = false
is_self_equal null_mapping = false
is_self_equal (mapping w es) = false
is_self_equal _ = true

nan_nonzero : (d : ℕ) → double_eq d d ≡ not (is_nan d)
nan_nonzero d = ground arith

-- A value equals itself exactly if it is no array, no mapping and no NaN.
pub values_equal_self : (v : Value) → values_equal v v ≡ is_self_equal v
unfolding values_equal
values_equal_self void = refl
values_equal_self (str s) = text_eq_self s
values_equal_self (symbol s) = text_eq_self s
values_equal_self (float d) = nan_nonzero d
values_equal_self v = ground arith

pub values_equal_symm : (a b : Value) → values_equal a b ≡ true → values_equal b a ≡ true
unfolding values_equal
values_equal_symm void void h = refl
values_equal_symm (str s) (str t) h = rw ((text_eq_iff s t).0 h) (text_eq_self t)
values_equal_symm (symbol s) (symbol t) h = rw ((text_eq_iff s t).0 h) (text_eq_self t)
values_equal_symm _ _ h = ground arith

text_eq_trans : (s t u : Text) → text_eq s t ≡ true → text_eq t u ≡ true → text_eq s u ≡ true
text_eq_trans s t u h k = (text_eq_iff s u).1 ((text_eq_iff s t).0 h ∙ (text_eq_iff t u).0 k)

pub values_equal_trans :
    (a b c : Value) → values_equal a b ≡ true → values_equal b c ≡ true → values_equal a c ≡ true
unfolding values_equal
values_equal_trans void void void h k = ground arith
values_equal_trans nil nil nil h k = ground arith
values_equal_trans (int a) (int b) (int c) h k = ground arith
values_equal_trans (float a) (float b) (float c) h k = ground arith
values_equal_trans (str a) (str b) (str c) h k = text_eq_trans a b c h k
values_equal_trans (symbol a) (symbol b) (symbol c) h k = text_eq_trans a b c h k
values_equal_trans (object a) (object b) (object c) h k = ground arith
values_equal_trans null_closure null_closure null_closure h k = ground arith
values_equal_trans (closure a ha xa) (closure b hb xb) (closure c hc xc) h k = ground arith
values_equal_trans null_buffer null_buffer null_buffer h k = ground arith
values_equal_trans (buffer a xa) (buffer b xb) (buffer c xc) h k = ground arith
values_equal_trans _ _ _ h k = ground arith
