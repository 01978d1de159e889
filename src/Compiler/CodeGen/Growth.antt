-- ===== src/Compiler/CodeGen/Growth.antt =====
-- What emission leaves of the code and of the pool before it, and what a finished program has of a
-- part that was emitted.
use kjdmud.Base.{
  ℕ, zero, suc, ◌≤◌, ◌<◌, ◌≡◌, ◌≢◌, refl, ap, ◌∙◌, List, [], ◌∷◌, ◌++◌, length, length-append,
  Option, none, some, ℤ, pos, arith, Option-cases, inl, inr, Bool, true, false, if◌then◌else◌,
  subst,
}
use kjdmud.Core.Text.{Text, text_eq, text_eq_iff}
use kjdmud.Vm.Bytecode.{OpCode, Instruction, CompiledProgram, get_elem?}
use kjdmud.Compiler.CodeGen.{
  emit, set_operand, patch_jump_to_here, intern_string, pool_index, emit_pooled,
}

get_elem?-append {ℓ} :
    {A : Type ℓ} (xs ys : List A) (i : ℕ) (x : A)
    → get_elem? i xs ≡ some x
    → get_elem? i (xs ++ ys) ≡ some x
unfolding get_elem?
get_elem?-append [] ys i x h = cc
get_elem?-append (y ∷ xs) ys zero x h = h
get_elem?-append (y ∷ xs) ys (suc i) x h = get_elem?-append xs ys i x h

get_elem?-last {ℓ} :
    {A : Type ℓ} (xs : List A) (x : A) → get_elem? (length xs) (xs ++ (x ∷ [])) ≡ some x
unfolding get_elem?
get_elem?-last [] x = refl
get_elem?-last (y ∷ xs) x = get_elem?-last xs x

-- The index of an element is below the length.
pub get_elem?-lt {ℓ} :
    {A : Type ℓ} (xs : List A) (i : ℕ) (x : A) → get_elem? i xs ≡ some x → i < length xs
unfolding get_elem?
get_elem?-lt [] i x h = cc
get_elem?-lt (y ∷ xs) zero x h = omega arith
get_elem?-lt (y ∷ xs) (suc i) x h = omega (arith, get_elem?-lt xs i x h)

get_elem?-set_operand :
    (code : List Instruction) (i index : ℕ) (target : ℤ) (x : Instruction)
    → get_elem? i code ≡ some x
    → i ≢ index
    → get_elem? i (set_operand index target code) ≡ some x
unfolding get_elem? set_operand
get_elem?-set_operand [] i index target x h n = cc
get_elem?-set_operand (y ∷ code) zero zero target x h n = absurd (n refl)
get_elem?-set_operand (y ∷ code) zero (suc index) target x h n = h
get_elem?-set_operand (y ∷ code) (suc i) zero target x h n = h
get_elem?-set_operand (y ∷ code) (suc i) (suc index) target x h n =
    get_elem?-set_operand code i index target x h (λ e. n (ap suc e))

get_elem?-set_operand_self :
    (code : List Instruction) (index : ℕ) (target : ℤ) (x : Instruction)
    → get_elem? index code ≡ some x
    → get_elem? index (set_operand index target code) ≡ some (record x { operand = target })
unfolding get_elem? set_operand
get_elem?-set_operand_self [] index target x h = cc
get_elem?-set_operand_self (y ∷ code) zero target x h = let e : y ≡ x = cc in rw e
get_elem?-set_operand_self (y ∷ code) (suc index) target x h =
    get_elem?-set_operand_self code index target x h

length-set_operand :
    (code : List Instruction) (index : ℕ) (target : ℤ)
    → length (set_operand index target code) ≡ length code
unfolding set_operand
length-set_operand [] index target = refl
length-set_operand (y ∷ code) zero target = refl
length-set_operand (y ∷ code) (suc index) target = ap suc (length-set_operand code index target)

-- Each instruction and each text before is where it was.
pub record Keeps (out out' : CompiledProgram) : Type 0 where
  pub longer : length out.code ≤ length out'.code
  pub same_code :
      (i : ℕ) (x : Instruction) → get_elem? i out.code ≡ some x → get_elem? i out'.code ≡ some x
  pub same_pool :
      (i : ℕ) (s : Text)
      → get_elem? i out.string_pool ≡ some s
      → get_elem? i out'.string_pool ≡ some s

-- The program has the instructions of `out` from index `b` on, and its texts.
pub record Agrees (b : ℕ) (out program : CompiledProgram) : Type 0 where
  pub long : length out.code ≤ length program.code
  pub has_code :
      (i : ℕ) (x : Instruction)
      → b ≤ i
      → get_elem? i out.code ≡ some x
      → get_elem? i program.code ≡ some x
  pub has_pool :
      (i : ℕ) (s : Text)
      → get_elem? i out.string_pool ≡ some s
      → get_elem? i program.string_pool ≡ some s

pub Keeps-refl : (out : CompiledProgram) → Keeps out out
Keeps-refl out = record { longer = omega arith; same_code = λ i x h. h; same_pool = λ i s h. h }

pub Keeps-trans : {a b c : CompiledProgram} → Keeps a b → Keeps b c → Keeps a c
Keeps-trans h k = record {
  longer = omega (arith, h.longer, k.longer);
  same_code = λ i x e. k.same_code i x (h.same_code i x e);
  same_pool = λ i s e. k.same_pool i s (h.same_pool i s e);
}

-- A program that agrees with more agrees with less.
pub Agrees-Keeps :
    {b c : ℕ} {out out' program : CompiledProgram}
    → Agrees b out' program
    → Keeps out out'
    → b ≤ c
    → Agrees c out program
Agrees-Keeps a k h = record {
  long = omega (arith, a.long, k.longer);
  has_code = λ i x l e. a.has_code i x (omega (arith, h, l)) (k.same_code i x e);
  has_pool = λ i s e. a.has_pool i s (k.same_pool i s e);
}

pub length-emit :
    (op : OpCode) (operand : ℤ) (argc : ℕ) (out : CompiledProgram)
    → length (emit op operand argc out).code ≡ suc (length out.code)
unfolding emit
length-emit op operand argc out = omega (arith, length-append out.code)

pub emit-Keeps :
    (op : OpCode) (operand : ℤ) (argc : ℕ) (out : CompiledProgram)
    → Keeps out (emit op operand argc out)
unfolding emit
emit-Keeps op operand argc out = record {
  longer = omega (arith, length-append out.code);
  same_code = λ i x h. get_elem?-append out.code _ i x h;
  same_pool = λ i s h. h;
}

-- What is emitted is at the end of the code before it.
pub get_elem?-emit :
    (op : OpCode) (operand : ℤ) (argc : ℕ) (out : CompiledProgram)
    → get_elem? (length out.code) (emit op operand argc out).code
      ≡ some (record { op = op; operand = operand; arg_count = argc })
unfolding emit
get_elem?-emit op operand argc out = get_elem?-last out.code _

pub length-patch :
    (index : ℕ) (out : CompiledProgram)
    → length (patch_jump_to_here index out).code ≡ length out.code
unfolding patch_jump_to_here
length-patch index out = length-set_operand out.code index _

-- A program that agrees with patched code from `b` on agrees with the code before the patch from any
-- later index that is behind the patched instruction, and has that with its target.
pub Agrees-patch :
    {b c index : ℕ} {out program : CompiledProgram}
    → Agrees b (patch_jump_to_here index out) program
    → b ≤ c
    → index < c
    → Agrees c out program
unfolding patch_jump_to_here
Agrees-patch {b} {c} {index} {out} a h k = record {
  long = omega (arith, a.long, length-set_operand out.code index (pos (length out.code)));
  has_code = λ i x l e.
      a.has_code i x (omega (arith, h, l))
        (get_elem?-set_operand out.code i index _ x e (λ q. omega (arith, k, l, q)));
  has_pool = a.has_pool;
}

pub get_elem?-patch :
    (out : CompiledProgram) (index : ℕ) (x : Instruction)
    → get_elem? index out.code ≡ some x
    → get_elem? index (patch_jump_to_here index out).code
      ≡ some (record x { operand = pos (length out.code) })
unfolding patch_jump_to_here
get_elem?-patch out index x e = get_elem?-set_operand_self out.code index _ x e

pub get_elem?-patch_other :
    (out : CompiledProgram) (index i : ℕ) (x : Instruction)
    → get_elem? i out.code ≡ some x
    → i ≢ index
    → get_elem? i (patch_jump_to_here index out).code ≡ some x
unfolding patch_jump_to_here
get_elem?-patch_other out index i x e n = get_elem?-set_operand out.code i index _ x e n

-- Code before the patched instruction is kept.
pub Keeps-patch :
    {out out' : CompiledProgram} (index : ℕ)
    → Keeps out out'
    → length out.code ≤ index
    → Keeps out (patch_jump_to_here index out')
unfolding patch_jump_to_here
Keeps-patch {out} {out'} index k h = record {
  longer = omega (arith, k.longer, length-set_operand out'.code index (pos (length out'.code)));
  same_code = λ i x e.
      get_elem?-set_operand out'.code i index _ x (k.same_code i x e)
        (λ q. omega (arith, h, q, get_elem?-lt out.code i x e));
  same_pool = k.same_pool;
}

-- An index in a pool, whose head is what is looked for if the test `b` passes.
found_in :
    (s t : Text) (pool : List Text) (b : Bool) (o : Option ℕ) (i : ℕ)
    → (b ≡ true → t ≡ s)
    → ((j : ℕ) → o ≡ some j → get_elem? j pool ≡ some s)
    → (if b then some 0 else (elim o [ none ↦ none | some j ↦ some (suc j) ])) ≡ some i
    → get_elem? i (t ∷ pool) ≡ some s
unfolding get_elem?
found_in s t pool true o zero k h e = ap some (k refl)
found_in s t pool true o (suc i) k h e = ground arith
found_in s t pool false none i k h e = cc
found_in s t pool false (some j) zero k h e = ground arith
found_in s t pool false (some j) (suc i) k h e = h i (ground arith)

pool_index_found :
    (s : Text) (pool : List Text) (i : ℕ) → pool_index s pool ≡ some i → get_elem? i pool ≡ some s
unfolding pool_index get_elem?
pool_index_found s [] i h = cc
pool_index_found s (t ∷ pool) i h =
    found_in s t pool (text_eq t s) (pool_index s pool) i (text_eq_iff t s).0
      (pool_index_found s pool) h

-- Interning a text gives an index at which it stands.
pub intern_string_found :
    (s : Text) (out : CompiledProgram)
    → get_elem? (intern_string s out).0 (intern_string s out).1.string_pool ≡ some s
unfolding intern_string
intern_string_found s out = elim (Option-cases (pool_index s out.string_pool)) [
  | inl e ↦ rw (e, intern_string) (get_elem?-last out.string_pool s)
  | inr (i, e) ↦ rw (e, intern_string) (pool_index_found s out.string_pool i e)
]

intern_string-Keeps : (s : Text) (out : CompiledProgram) → Keeps out (intern_string s out).1
unfolding intern_string
intern_string-Keeps s out = elim (Option-cases (pool_index s out.string_pool)) [
  | inl e ↦
      rw (e, intern_string)
        record {
          longer = omega arith;
          same_code = λ i x h. h;
          same_pool = λ i t h. get_elem?-append out.string_pool _ i t h;
        }
  | inr (i, e) ↦ rw (e, intern_string) (Keeps-refl out)
]

intern_string-code : (s : Text) (out : CompiledProgram) → (intern_string s out).1.code ≡ out.code
unfolding intern_string
intern_string-code s out = elim (Option-cases (pool_index s out.string_pool)) [
  | inl e ↦ rw (e, intern_string) refl
  | inr (i, e) ↦ rw (e, intern_string) refl
]

pub emit_pooled-Keeps :
    (op : OpCode) (s : Text) (argc : ℕ) (out : CompiledProgram)
    → Keeps out (emit_pooled op s argc out)
unfolding emit_pooled
emit_pooled-Keeps op s argc out =
    Keeps-trans (intern_string-Keeps s out) (emit-Keeps op _ argc (intern_string s out).1)

pub length-emit_pooled :
    (op : OpCode) (s : Text) (argc : ℕ) (out : CompiledProgram)
    → length (emit_pooled op s argc out).code ≡ suc (length out.code)
unfolding emit_pooled
length-emit_pooled op s argc out =
    length-emit op _ argc (intern_string s out).1
    ∙ ap (λ c. suc (length c)) (intern_string-code s out)

-- The instruction emitted for a text has an index at which the text stands.
pub get_elem?-emit_pooled :
    (op : OpCode) (s : Text) (argc : ℕ) (out : CompiledProgram)
    → (i : ℕ) × (get_elem? (length out.code) (emit_pooled op s argc out).code
        ≡ some (record { op = op; operand = pos i; arg_count = argc }))
      × (get_elem? i (emit_pooled op s argc out).string_pool ≡ some s)
unfolding emit_pooled emit
get_elem?-emit_pooled op s argc out = (
  (intern_string s out).0,
  subst
      (λ c.
        get_elem? (length c) (emit_pooled op s argc out).code
        ≡ some (record { op = op; operand = pos (intern_string s out).0; arg_count = argc }))
      (intern_string-code s out) (get_elem?-emit op _ argc (intern_string s out).1),
  intern_string_found s out,
)
