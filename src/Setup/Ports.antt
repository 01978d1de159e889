-- ===== src/Setup/Ports.antt =====
-- The listen ports that a configuration file gives.
use kjdmud.Base.{
  ℕ, suc, ◌+◌, ◌<◌, ◌≡◌, refl, ℤ, Bool, true, false, List, [], ◌∷◌, ◌++◌, Option, none, some,
  length, arith, if_chain-All, if_both, ◌==◌, if◌then◌else◌,
}
use kjdmud.Core.Text.{Text}
use kjdmud.Core.Errors.{Result, ok, err, ◌>>=◌}
use kjdmud.Setup.{
  Config, ListenPort, telnet, cases_of, add_port, add_listen_line, ensure_default_listen_port,
  set_key, is_comment, load_pair, load_line, load_lines, load_from_file,
}
use kjdmud.Setup.Reading.{trim, stoi, next_word, read_int, words, lines}
use kjdmud.Core.Split.{split_at}

-- The slots of the ports are `n`, `n + 1` and so on.
abbrev pub IsNumbered : ℕ → List ListenPort → Type 0
IsNumbered n [] = Unit
IsNumbered n (p ∷ ps) = (p.slot ≡ n) × IsNumbered (suc n) ps

abbrev pub HasSlots : Config → Type 0
HasSlots c = IsNumbered 1 c.listen_ports

-- `P` holds of the value, if nothing was thrown.
abbrev pub Holds {ℓ κ} : {A : Type ℓ} → (A → Type κ) → Result A → Type κ
Holds P (err e) = Unit
Holds P (ok a) = P a

Holds-bind :
    {A : Type 0} {B : Type 0} (P : A → Type 0) (Q : B → Type 0) (r : Result A) (f : A → Result B)
    → Holds P r
    → ((a : A) → P a → Holds Q (f a))
    → Holds Q (r >>= f)
Holds-bind P Q (err e) f h k = tt
Holds-bind P Q (ok a) f h k = k a h

IsNumbered-append :
    (n : ℕ) (ps : List ListenPort) (p : ListenPort)
    → IsNumbered n ps
    → p.slot ≡ length ps + n
    → IsNumbered n (ps ++ p ∷ [])
IsNumbered-append n [] p h k = (omega arith, tt)
IsNumbered-append n (q ∷ ps) p h k = (h.0, IsNumbered-append (suc n) ps p h.1 (omega arith))

add_listen_line-HasSlots : (val : Text) (c : Config) → HasSlots c → HasSlots (add_listen_line val c)
unfolding add_listen_line add_port
add_listen_line-HasSlots val c h = go (read_int (next_word val).1)
  where
    go :
        (r : Option (ℤ × Text))
        → HasSlots (elim r [
          | none ↦ c
          | some (number, flags) ↦
              if length (next_word val).0 == 0
              then c
              else add_port (next_word val).0 number (words flags) c
        ])
    go none = h
    go (some (number, flags)) =
        if_both HasSlots (length (next_word val).0 == 0) (λ _. h)
          (λ _. IsNumbered-append 1 c.listen_ports _ h refl)

number-HasSlots :
    (r : Result ℤ) (f : ℤ → Config)
    → ((i : ℤ) → HasSlots (f i))
    → Holds HasSlots (r >>= λ i. ok (f i))
number-HasSlots (err e) f h = tt
number-HasSlots (ok i) f h = h i

set_key-HasSlots : (key val : Text) (c : Config) → HasSlots c → Holds HasSlots (set_key key val c)
unfolding set_key
set_key-HasSlots key val c h =
    if_chain-All (Holds HasSlots) (cases_of key val c) (ok c)
      (
        (λ _. h),
        (
          (λ _. h),
          (
            (λ _. number-HasSlots (stoi val) _ (λ i. h)),
            (
              (λ _. number-HasSlots (stoi val) _ (λ i. h)),
              (
                (λ _. number-HasSlots (stoi val) _ (λ i. h)),
                (
                  (λ _. number-HasSlots (stoi val) _ (λ i. h)),
                  (
                    (λ _. h),
                    (
                      (λ _. h),
                      (
                        (λ _. h),
                        (
                          (λ _. h),
                          (
                            (λ _. h),
                            (
                              (λ _. h),
                              (
                                (λ _. add_listen_line-HasSlots val c h),
                                (
                                  (λ _. h),
                                  (
                                    (λ _. h),
                                    ((λ _. h), ((λ _. number-HasSlots (stoi val) _ (λ i. h)), tt)),
                                  ),
                                ),
                              ),
                            ),
                          ),
                        ),
                      ),
                    ),
                  ),
                ),
              ),
            ),
          ),
        ),
      )
      h

load_pair-HasSlots :
    (key val : Text) (c : Config) → HasSlots c → Holds HasSlots (load_pair key val c)
unfolding load_pair
load_pair-HasSlots key val c h =
    if_both (Holds HasSlots) (length key == 0) (λ _. h)
      (λ _. set_key-HasSlots key val (record c { raw = (key, val) ∷ c.raw }) h)

load_line-HasSlots : (line : Text) (c : Config) → HasSlots c → Holds HasSlots (load_line line c)
unfolding load_line
load_line-HasSlots line c h =
    if_both (Holds HasSlots) (is_comment line) (λ _. h) (λ _. go (split_at b':' line))
  where
    go :
        (r : Option (Text × Text))
        → Holds HasSlots
            (elim r [ none ↦ ok c | some (key, val) ↦ load_pair (trim key) (trim val) c ])
    go none = h
    go (some (key, val)) = load_pair-HasSlots (trim key) (trim val) c h

load_lines-HasSlots : (ls : List Text) (c : Config) → HasSlots c → Holds HasSlots (load_lines ls c)
unfolding load_lines
load_lines-HasSlots [] c h = h
load_lines-HasSlots (line ∷ more) c h =
    Holds-bind HasSlots HasSlots (load_line line c) (load_lines more) (load_line-HasSlots line c h)
      (load_lines-HasSlots more)

-- The driver has a port, and the ports have the slots 1, 2 and so on.
abbrev pub IsServed : Config × Bool → Type 0
IsServed (d, _) = HasSlots d × (0 < length d.listen_ports)

ensure_default-IsServed :
    (d : Config) (b : Bool) → HasSlots d → IsServed (ensure_default_listen_port d, b)
unfolding ensure_default_listen_port
ensure_default-IsServed d b h = go d.listen_ports refl
  where
    go :
        (ps : List ListenPort)
        → d.listen_ports ≡ ps
        → IsServed (
          elim ps [
            | [] ↦ record d {
              listen_ports = record { slot = 1; kind = telnet; port = d.port; tls = false } ∷ [];
            }
            | p ∷ rest ↦ d
          ],
          b,
        )
    go [] e = ((refl, tt), omega arith)
    go (p ∷ rest) e = (h, rw e (omega arith))

-- Whatever the file's text and whatever was configured before, a load that throws no error of
-- `std::stoi` leaves at least one listen port, and the ports have the slots 1, 2 and so on.
pub load_from_file-IsServed :
    (text : Text) (c : Config) → Holds IsServed (load_from_file (some text) c)
unfolding load_from_file
load_from_file-IsServed text c =
    Holds-bind HasSlots IsServed (load_lines (lines text) _) _
      (load_lines-HasSlots (lines text) _ tt) (λ d h. ensure_default-IsServed d true h)
