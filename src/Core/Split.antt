-- ===== src/Core/Split.antt =====
-- `std::string::find` of a byte and the loops that cut a text at a byte.
use kjdmud.Base.{
  ℕ, ◌≡◌, refl, Bool, true, false, List, [], ◌∷◌, ◌++◌, Option, none, some, ◌==◌, if◌then◌else◌,
  arith, All,
}
use kjdmud.Core.Text.{Text}

-- A byte in front of the first text.
abbrev pub put : ℕ → List Text → List Text
put c [] = (c ∷ []) ∷ []
put c (w ∷ ws) = (c ∷ w) ∷ ws

-- The texts that end in the byte, each without it, and what is left behind the last, if anything.
unfoldable pub split_after : ℕ → Text → List Text
split_after b [] = []
split_after b (c ∷ s) = let more = split_after b s in if c == b then [] ∷ more else put c more

-- `find(c)`, and the text before and behind it.
unfoldable pub split_at : ℕ → Text → Option (Text × Text)
split_at c [] = none
split_at c (d ∷ s) =
    let more = split_at c s in
    if d == c
    then some ([], s)
    else elim more [ none ↦ none | some (before, behind) ↦ some (d ∷ before, behind) ]

-- The byte does not stand in the text.
abbrev pub Lacks : ℕ → Text → Type 0
Lacks c s = All (λ d. (d == c) ≡ false) s

pub split_at-append : (c : ℕ) (s t : Text) → Lacks c s → split_at c (s ++ c ∷ t) ≡ some (s, t)
unfolding split_at
split_at-append c [] t h = ground arith
split_at-append c (d ∷ s) t h = rw (h.0, split_at-append c s t h.1)

pub split_at-none : (c : ℕ) (s : Text) → Lacks c s → split_at c s ≡ none
unfolding split_at
split_at-none c [] h = refl
split_at-none c (d ∷ s) h = rw (h.0, split_at-none c s h.1) refl

pub split_after-append :
    (c : ℕ) (s t : Text) → Lacks c s → split_after c (s ++ c ∷ t) ≡ s ∷ split_after c t
unfolding split_after
split_after-append c [] t h = ground arith
split_after-append c (d ∷ s) t h = rw (h.0, split_after-append c s t h.1)

abbrev pub begins_with : Text → Text → Bool
begins_with [] s = true
begins_with (p ∷ pattern) [] = false
begins_with (p ∷ pattern) (c ∷ s) = if c == p then begins_with pattern s else false

-- `find(pattern)`: the text before the first place, and the text from there on.
unfoldable pub find_text : Text → Text → Option (Text × Text)
find_text pattern [] = if begins_with pattern [] then some ([], []) else none
find_text pattern (c ∷ s) =
    let more = find_text pattern s in
    if begins_with pattern (c ∷ s)
    then some ([], c ∷ s)
    else elim more [ none ↦ none | some (before, from) ↦ some (c ∷ before, from) ]
