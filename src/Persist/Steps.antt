-- ===== src/Persist/Steps.antt =====
-- What it means that a text is read back.
use kjdmud.Base.{
  ℕ, suc, ◌+◌, ◌≤◌, ◌≡◌, sym, subst, Bool, Option, ◌∷◌, ◌++◌, length, append_assoc, ℤ,
}
use kjdmud.Core.Text.{Text}
use kjdmud.Core.Errors.{Result, Returns}
use kjdmud.Vm.Value.{Value, Items, Columns, Entries}
use kjdmud.Vm.Save.Read.{count}
use kjdmud.Persist.Reading.{read_items, read_columns, read_entries, deserialize}
use kjdmud.Persist.Writing.{rows}
use kjdmud.Persist.Restoring
use kjdmud.Persist.Places.{At, At-next, At-behind}

-- Behind a tag, in front of a field that `d` ends.
pub At-tag :
    (s : Text) (p kind d : ℕ) (x t rest : Text)
    → At s p (kind ∷ (x ++ d ∷ t) ++ rest)
    → At s (suc p) (x ++ d ∷ (t ++ rest))
At-tag s p kind d x t rest h =
    subst (At s (suc p)) (append_assoc x (d ∷ t) rest) (At-next s p kind ((x ++ d ∷ t) ++ rest) h)

-- One part behind another.
pub At-first :
    (s : Text) (p : ℕ) (t u rest : Text) → At s p ((t ++ u) ++ rest) → At s p (t ++ (u ++ rest))
At-first s p t u rest h = subst (At s p) (append_assoc t u rest) h

pub At-part :
    (s : Text) (p q : ℕ) (t rest : Text) → q ≡ p + length t → At s p (t ++ rest) → At s q rest
At-part s p q t rest e h = subst (λ k. At s k rest) (sym e) (At-behind s p t rest h)

module _ (stod : Text → Result ℕ) (round : ℕ → ℕ) (is_alive : ℕ → Bool)
    (id_of_object : ℕ → Option ℕ) (object_of_id : ℤ → Option ℕ) where
  -- The text is read as a value that comes back for `v`, whatever stands around it.
  abbrev pub Reads : Value → Text → Type 0
  Reads v t =
      (s : Text) (n p : ℕ) (rest : Text)
      → At s p (t ++ rest)
      → length t ≤ n
      → Returns
          (λ r.
            Restoring.Restores round is_alive id_of_object object_of_id v r.0
            × (r.1 ≡ p + length t))
          (deserialize stod object_of_id s n p)

  abbrev pub ReadsItems : Items → Text → Type 0
  ReadsItems xs t =
      (s : Text) (n p : ℕ) (rest : Text)
      → At s p (t ++ rest)
      → length t ≤ n
      → Returns
          (λ r.
            Restoring.RestoresItems round is_alive id_of_object object_of_id xs r.0
            × (r.1 ≡ p + length t))
          (read_items (deserialize stod object_of_id s n) (count xs) p)

  -- The columns behind the first, of which there are `n`, and the rows of a mapping.
  abbrev pub ReadsColumns : ℕ → Columns → Text → Type 0
  ReadsColumns w cs t =
      (s : Text) (n p : ℕ) (rest : Text)
      → At s p (t ++ rest)
      → length t ≤ n
      → Returns
          (λ r.
            Restoring.RestoresColumns round is_alive id_of_object object_of_id w cs r.0
            × (r.1 ≡ p + length t))
          (read_columns (deserialize stod object_of_id s n) w p)

  abbrev pub ReadsEntries : ℕ → Entries → Text → Type 0
  ReadsEntries w es t =
      (s : Text) (n p : ℕ) (rest : Text)
      → At s p (t ++ rest)
      → length t ≤ n
      → Returns
          (λ r.
            Restoring.RestoresEntries round is_alive id_of_object object_of_id w es r.0
            × (r.1 ≡ p + length t))
          (read_entries (deserialize stod object_of_id s n) w (rows es) p)
