-- ===== src/Tests/Dumped.antt =====
-- A value of a small world, dumped and read back.
use kjdmud.Base.{
  ℕ, zero, suc, ◌+◌, ◌<◌, ◌^◌, ◌≡◌, refl, true, false, Option, none, some, ◌++◌, arith, length, ℤ,
  pos, negsuc, if◌then◌else◌, ◌==◌,
}
use kjdmud.Core.Text.{Text, codes}
use kjdmud.Core.Errors.{Result, ok, Returns}
use kjdmud.Core.Decimal.{digits, to_string}
use kjdmud.Vm.Value.{
  Value, ClosureHead, int, str, object, array, mapping, closure, float, item, no_items, entry,
  no_entries, columns,
}
use kjdmud.Persist.Writing.{serialize, width_text, closure_text, object_text, owner_id}
use kjdmud.Persist.Reading.{deserialize}
use kjdmud.Persist.Restoring.{Restores, IsDumpable}
use kjdmud.Persist.RoundTrip.{serialize-Returns, deserialize-serialize}

abbrev shown : ℕ → Text
shown d = codes "1.5"

abbrev parsed : Text → Result ℕ
parsed s = ok 4609434218613702656

abbrev rounded : ℕ → ℕ
rounded d = 4609434218613702656

-- Object 0 has the id 2, and is made again at address 70.
abbrev ids : ℕ → Option ℕ
ids zero = some 2
ids (suc a) = none

abbrev made : ℤ → Option ℕ
made (pos n) = if n == 2 then some 00 else none
made (negsuc n) = none

small_ids : (a i : ℕ) → ids a ≡ some i → i < 2 ^ 63
small_ids zero i e = ground arith
small_ids (suc a) i e = cc

abbrev hook : ClosureHead
hook = record {
  owner = some 0;
  function_name = codes "tick";
  force_efun = true;
  unbound_until_bound = false;
  quoted = false;
}

abbrev inventory : Value
inventory = array (
    item (int (negsuc 4)) (
      item (object (some 0)) (
        item
          (mapping 2 (
            entry (str (codes "a:b")) (float 5) (columns (item (int (pos 1)) no_items)) no_entries))
          (item (closure 9 hook (item (object none) no_items)) no_items))))

abbrev inventory_text : Text
inventory_text = codes "A4:I-5;O2;M1w2:S3:a:bF1.5;I1;C2;1;4:tick1;N"

inventory_is_written : serialize shown (λ a. true) ids inventory ≡ ok inventory_text
unfolding serialize digits to_string width_text closure_text object_text owner_id
inventory_is_written = refl

inventory-IsDumpable : IsDumpable shown parsed rounded ids inventory
unfolding IsDumpable
inventory-IsDumpable = (
  omega arith,
  (
    (2, refl),
    (
      (omega arith, (tt, ((refl, (refl, (refl, tt))), refl), (refl, (omega arith, tt)), tt)),
      ((refl, (tt, tt)), tt),
    ),
  ),
)

serialize-Returns_example : Returns (λ t. 0 < length t) (serialize shown (λ a. true) ids inventory)
serialize-Returns_example =
    serialize-Returns shown parsed rounded (λ a. true) ids made small_ids inventory
      inventory-IsDumpable

deserialize-serialize_example :
    Returns
      (λ r. Restores rounded (λ a. true) ids made inventory r.0 × (r.1 ≡ 3 + 43))
      (deserialize parsed made (codes "7;1" ++ (inventory_text ++ codes "I0;")) 43 3)
deserialize-serialize_example =
    deserialize-serialize shown parsed rounded (λ a. true) ids made small_ids inventory
      (codes "7;1") inventory_text (codes "I0;") 43 inventory-IsDumpable inventory_is_written
      (omega arith) (omega arith)
