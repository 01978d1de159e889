-- ===== src/Vm/Activation.antt =====
-- src/vm/VM.cpp: the operations of the machine on the values of Vm/Value.antt, and the local variables
-- with which `VM::run` begins. An array is the list of its items: that it may be shared is not modelled.
use kjdmud.Base.{
  ℕ, zero, suc, ◌-◌, ◌<◌, ◌≡◌, refl, ap, ◌∙◌, Bool, ◌&&◌, List, [], ◌∷◌, take, drop, Option, none,
  some, ltb, ◌==◌, if◌then◌else◌, pos, arith, Bool-cases, inl, inr,
}
use kjdmud.Core.Text.{Text}
use kjdmud.Object.Heap.{Heap, is_destructed}
use kjdmud.Vm.Value.{
  Value, void, nil, int, str, symbol, object, array, Items, no_items, item, is_truthy,
}
use kjdmud.Vm.Bytecode.{get_elem?, set_elem}
use kjdmud.Vm.Store.{Outcome, Semantics}
use kjdmud.Vm.Operators.{Doubles, operate, complement}

-- The objects, and the variables of the one whose function runs.
pub record World : Type 0 where
  pub heap : Heap
  pub variables : List Value

unfoldable pub coerce_if_destructed : Heap → Value → Value
unfolding is_destructed
coerce_if_destructed heap (object o) = if is_destructed heap o then int (pos 0) else object o
coerce_if_destructed heap v = v

abbrev pub items : List Value → Items
items [] = no_items
items (v ∷ vs) = item v (items vs)

abbrev pub filename_of : Heap → ℕ → Text
filename_of heap a = elim (heap a) [ none ↦ [] | some o ↦ o.filename ]

abbrev pub lpc :
    Doubles
    → (Bool → Text → List Value → World → World × Outcome Value Value)
    → Semantics Value World
lpc doubles call = record {
  void = void;
  nil = nil;
  number = int;
  text = str;
  symbol = symbol;
  is_truthy = is_truthy;
  coerce = λ w v. coerce_if_destructed w.heap v;
  operate = λ op l r w. (w, operate doubles (filename_of w.heap) op l r);
  complement = complement;
  new_array = λ vs w. (w, array (items vs));
  variables = λ w. w.variables;
  set_variables = λ vs w. record w { variables = vs };
  call = call;
}

-- The values at the front of the slots, and the default in the others.
unfoldable pub fill_locals {ℓ} : {A : Type ℓ} → ℕ → A → List A → List A
fill_locals zero default args = []
fill_locals (suc n) default [] = default ∷ fill_locals n default []
fill_locals (suc n) default (v ∷ args) = v ∷ fill_locals n default args

-- `locals` of a function with `num_args` parameters, the last of which takes the rest of the arguments
-- as an array if the function has varargs.
unfoldable pub bind_locals : Value → ℕ → ℕ → Bool → List Value → List Value
unfolding fill_locals set_elem
bind_locals default num_locals num_args is_varargs args =
    if is_varargs && ltb 0 num_args
    then set_elem (num_args - 1) (array (items (drop (num_args - 1) args)))
        (fill_locals num_locals default (take (num_args - 1) args))
    else fill_locals num_locals default args

abbrev pub or_default {ℓ} : {A : Type ℓ} → A → Option A → A
or_default d none = d
or_default d (some x) = x

fill_locals-get {ℓ} :
    {A : Type ℓ} (n i : ℕ) (default : A) (args : List A)
    → i < n
    → get_elem? i (fill_locals n default args) ≡ some (or_default default (get_elem? i args))
unfolding fill_locals get_elem?
fill_locals-get zero i default args h = absurd (omega arith)
fill_locals-get (suc n) zero default [] h = refl
fill_locals-get (suc n) zero default (v ∷ args) h = refl
fill_locals-get (suc n) (suc i) default [] h = fill_locals-get n i default [] (omega arith)
fill_locals-get (suc n) (suc i) default (v ∷ args) h =
    fill_locals-get n i default args (omega arith)

get_elem?-set_elem {ℓ} :
    {A : Type ℓ} (xs : List A) (i j : ℕ) (x y : A)
    → get_elem? i xs ≡ some x
    → get_elem? i (set_elem j y xs) ≡ some (if i == j then y else x)
unfolding get_elem? set_elem
get_elem?-set_elem [] i j x y h = cc
get_elem?-set_elem (z ∷ xs) zero zero x y h = refl
get_elem?-set_elem (z ∷ xs) zero (suc j) x y h = ground arith
get_elem?-set_elem (z ∷ xs) (suc i) zero x y h = ground arith
get_elem?-set_elem (z ∷ xs) (suc i) (suc j) x y h = ground (arith, get_elem?-set_elem xs i j x y h)

pub get_elem?-take {ℓ} :
    {A : Type ℓ} (xs : List A) (i n : ℕ)
    → get_elem? i (take n xs) ≡ (if ltb i n then get_elem? i xs else none)
unfolding get_elem?
get_elem?-take xs i zero = ground arith
get_elem?-take [] i (suc n) = ground arith
get_elem?-take (x ∷ xs) zero (suc n) = ground arith
get_elem?-take (x ∷ xs) (suc i) (suc n) = ground (arith, get_elem?-take xs i n)

or_default-take {ℓ} :
    {A : Type ℓ} (d : A) (xs : List A) (i n : ℕ)
    → or_default d (get_elem? i (take n xs))
      ≡ (if ltb i n then or_default d (get_elem? i xs) else d)
or_default-take d xs i n = elim (Bool-cases (ltb i n)) [
  | inl e ↦ rw (get_elem?-take, e) refl
  | inr e ↦ rw (get_elem?-take, e) refl
]

-- What the slot `i` of a function is to hold.
abbrev pub argument : Value → ℕ → Bool → List Value → ℕ → Value
argument default num_args is_varargs args i =
    if is_varargs && ltb 0 num_args
    then (if i == num_args - 1
        then array (items (drop (num_args - 1) args))
        else (if ltb i (num_args - 1) then or_default default (get_elem? i args) else default))
    else or_default default (get_elem? i args)

-- Each local variable begins with its argument: that of its position, or the default. In a function with
-- varargs the last parameter is the array of the arguments from its position on, which is empty if there
-- are none, and the variables after it have the default.
pub bind_locals-get :
    (default : Value) (num_locals num_args i : ℕ) (is_varargs : Bool) (args : List Value)
    → i < num_locals
    → get_elem? i (bind_locals default num_locals num_args is_varargs args)
      ≡ some (argument default num_args is_varargs args i)
unfolding bind_locals
bind_locals-get default num_locals num_args i is_varargs args h =
    elim (Bool-cases (is_varargs && ltb 0 num_args)) [
      | inr e ↦ rw (e, bind_locals) (fill_locals-get num_locals i default args h)
      | inl e ↦
          rw (e, bind_locals)
            (get_elem?-set_elem (fill_locals num_locals default (take (num_args - 1) args)) i
                (num_args - 1) _ _
                (fill_locals-get num_locals i default (take (num_args - 1) args) h)
              ∙ ap
                  (λ v.
                    some
                      (if i == num_args - 1 then array (items (drop (num_args - 1) args)) else v))
                  (or_default-take default args i (num_args - 1)))
    ]
