-- ===== src/Lexer/Blank.antt =====
-- `Lexer::skipWhitespaceAndComments`.
use kjdmud.Base.{ℕ, zero, suc, Bool, ◌&&◌, ◌||◌, [], ◌∷◌, length, ◌==◌, if◌then◌else◌}
use kjdmud.Core.Text.{Text}
use kjdmud.Core.Errors.{Result, ok, err, out_of_fuel}
use kjdmud.Lexer.Cursor.{Cursor, at, head_or_nul, at_end, peek, peek_next, next_line, advance}

abbrev pub is_blank : ℕ → Bool
is_blank c = c == b' ' || c == b'\t' || c == b'\r' || c == b'\n'

-- `while (!atEnd() && peek() != '\n') advance();`
unfoldable pub skip_to_break : Text → ℕ → Cursor
skip_to_break [] n = at [] n
skip_to_break (c ∷ s) n =
    let more = skip_to_break s (next_line c n) in if c == b'\n' then at (c ∷ s) n else more

-- The body of a block comment, up to its `*/`.
unfoldable pub skip_to_close : Text → ℕ → Cursor
skip_to_close [] n = at [] n
skip_to_close (c ∷ s) n =
    let more = skip_to_close s (next_line c n) in
    if c == b'*' && head_or_nul s == b'/' then at (c ∷ s) n else more

unfoldable pub skip_block : Cursor → Cursor
unfolding skip_to_close advance
skip_block c =
    let body = advance (advance c) in
    let close = skip_to_close body.rest body.line in
    if at_end close then close else advance (advance close)

-- The tests of one round of the `for (;;)`.
abbrev pub starts_line_comment : Cursor → Bool
starts_line_comment c = peek c == b'/' && peek_next c == b'/'

abbrev pub starts_block_comment : Cursor → Bool
starts_block_comment c = peek c == b'/' && peek_next c == b'*'

unfoldable pub skip_fuel : ℕ → Cursor → Result Cursor
unfolding skip_to_break skip_block advance
skip_fuel zero c = err out_of_fuel
skip_fuel (suc f) c =
    let blank = skip_fuel f (advance c) in
    let line_comment = skip_fuel f (skip_to_break c.rest c.line) in
    let block_comment = skip_fuel f (skip_block c) in
    if at_end c
    then ok c
    else if is_blank (peek c)
    then blank
    else if starts_line_comment c
    then line_comment
    else if starts_block_comment c
    then block_comment
    else ok c

unfoldable pub skip : Cursor → Result Cursor
unfolding skip_fuel
skip c = skip_fuel (suc (length c.rest)) c
