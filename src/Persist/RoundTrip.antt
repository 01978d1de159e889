-- ===== src/Persist/RoundTrip.antt =====
-- What is dumped is read back.
use kjdmud.Base.{
  ℕ, ◌+◌, ◌^◌, ◌<◌, ◌≤◌, ◌≡◌, sym, subst, Bool, Option, some, ◌++◌, length, length-append, arith,
  drop-append, ℤ,
}
use kjdmud.Core.Text.{Text}
use kjdmud.Core.Errors.{Result, ok, Returns}
use kjdmud.Vm.Value.{Value}
use kjdmud.Persist.Writing.{serialize}
use kjdmud.Persist.Reading.{deserialize}
use kjdmud.Persist.Restoring
use kjdmud.Persist.Restoring.{IsDumpable, AreDumpable, IsRow, IsTable}
use kjdmud.Persist.Steps
use kjdmud.Persist.Dumping

module _ (show : ℕ → Text) (stod : Text → Result ℕ) (round : ℕ → ℕ) (is_alive : ℕ → Bool)
    (id_of_object : ℕ → Option ℕ) (object_of_id : ℤ → Option ℕ)
    (small_ids : (a i : ℕ) → id_of_object a ≡ some i → i < 2 ^ 63) where
  -- A value that can be dumped is dumped without an exception, as a text that is not empty: a value
  -- whose integers have 64 bits, whose doubles are shown without a semicolon and read as their rounded
  -- value, whose objects have an id below 2^63, whose closures are bound and whose mapping rows have
  -- the mapping's width, which is below 2^31.
  pub serialize-Returns :
      (v : Value)
      → IsDumpable show stod round id_of_object v
      → Returns (λ t. 0 < length t) (serialize show is_alive id_of_object v)
  serialize-Returns v h =
      let (t, e, (some_text, reads)) =
        Dumping.value-Dumps show stod round is_alive id_of_object object_of_id small_ids v h in
      (t, e, some_text)

  -- What is written for a value that can be dumped is read back as a value that is restored for it, and
  -- the reader stops behind it, wherever the text stands in a file of less than 2^64 bytes. It can be
  -- dumped if its integers have 64 bits, its doubles are shown without a semicolon and read as their
  -- rounded value, its objects have an id below 2^63, its closures are bound and its mapping rows have
  -- the mapping's width, which is below 2^31. Restored are: an object by its id, a closure with the
  -- owner found by its id and a new address, a double rounded, null arrays and mappings as empty ones,
  -- and what has no text as void. Fuel of the length of the text is enough.
  pub deserialize-serialize :
      (v : Value) (before t rest : Text) (n : ℕ)
      → IsDumpable show stod round id_of_object v
      → serialize show is_alive id_of_object v ≡ ok t
      → length (before ++ (t ++ rest)) < 2 ^ 64
      → length t ≤ n
      → Returns
          (λ r.
            Restoring.Restores round is_alive id_of_object object_of_id v r.0
            × (r.1 ≡ length before + length t))
          (deserialize stod object_of_id (before ++ (t ++ rest)) n (length before))
  deserialize-serialize v before t rest n h e small fuel =
      let (u, f, (some_text, reads)) =
        Dumping.value-Dumps show stod round is_alive id_of_object object_of_id small_ids v h in
      let same : u ≡ t = ground (arith, f, e) in
      subst (λ x. Steps.Reads stod round is_alive id_of_object object_of_id v x) same reads
        (before ++ (t ++ rest)) n (length before) rest
        (drop-append before (t ++ rest), sym (length-append before (t ++ rest)), small) fuel
