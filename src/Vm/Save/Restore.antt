-- ===== src/Vm/Save/Restore.antt =====
-- `parseRestoreVariableString`, `parseRestoreVariableNumber` and `parseRestoreVariableTopLevel`.
use kjdmud.Base.{ℕ, pos, [], ◌∷◌, ◌==◌, if◌then◌else◌}
use kjdmud.Core.Text.{Text, codes}
use kjdmud.Core.Errors.{Result, ok, err, runtime, ◌>>=◌}
use kjdmud.Core.Decimal.{starts_digit}
use kjdmud.Vm.Value.{Value, int, str}
use kjdmud.Vm.Save.Format.{Format}
use kjdmud.Vm.Save.Read.{skip_any, is_at, unescaped, read_unsigned, starts_number, read_value}

abbrev pub bad_string : Result Text
bad_string = err (runtime (codes "restore_variable(): Illegal string format."))

abbrev pub prepend : ℕ → Result Text → Result Text
prepend c more = more >>= λ s. ok (c ∷ s)

-- The closing quote must end the text, and a backslash must not.
unfoldable pub restore_string : Text → Result Text
restore_string [] = bad_string
restore_string (c ∷ []) = if c == b'"' then ok [] else bad_string
restore_string (c ∷ e ∷ s) =
    let escaped = prepend (unescaped e) (restore_string s) in
    let plain = prepend (unescaped c) (restore_string (e ∷ s)) in
    if c == b'"' then bad_string else if c == b'\\' then escaped else plain

-- As the number of an array, but a sign wants a digit behind it.
unfoldable pub restore_number : Format → Text → Result Value
restore_number f s =
    if is_at b'-' s
    then (if starts_digit (skip_any s)
        then (read_unsigned f (b'-' ∷ []) (skip_any s) >>= λ r. ok r.0)
        else err (runtime (codes "restore_variable(): Illegal numeric format.")))
    else (read_unsigned f [] s >>= λ r. ok r.0)

-- The reader with fuel `n`.
unfoldable pub restore_fuel : Format → ℕ → Text → Result Value
restore_fuel f n [] = ok (int (pos 0))
restore_fuel f n (c ∷ s) =
    if c == b'"'
    then (restore_string s >>= λ t. ok (str t))
    else if starts_number c
    then restore_number f (c ∷ s)
    else (read_value f n (c ∷ s) >>= λ r. ok r.0)
