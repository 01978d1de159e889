-- ===== src/Net/Connection/Typed.antt =====
-- The lines that a telnet client types are the lines that the driver reads.
use kjdmud.Base.{
  ℕ, zero, suc, ◌<◌, ◌≡◌, refl, sym, ap, ◌∙◌, true, false, not, ◌||◌, ◌&&◌, List, [], ◌∷◌, ◌++◌,
  append_assoc, append-nil, ◌==◌, All, arith, length, length-append, none, some, if_both, subst,
}
use kjdmud.Core.Text.{Text}
use kjdmud.Core.Split.{split_at, Lacks, split_at-append, split_at-none}
use kjdmud.Core.Errors.{Result, ok, Returns}
use kjdmud.Net.Connection.State.{Connection, in_data, iac, wont_code, echo}
use kjdmud.Net.Connection.Output.{send, put_on_wire}
use kjdmud.Net.Connection.Protocols.{iac_escaped}
use kjdmud.Net.Connection.Telnet.{enter, push_plain, process_telnet_bytes}
use kjdmud.Net.Connection.Items.{plain, print_item, receive, process-append, process-item}
use kjdmud.Net.Connection.Delivery.{iac_escaped-append}
use kjdmud.Net.Connection.Input.{
  Reading, got, read_chunk, chomp, take_line, take_lines, process_input, poll_lines,
}

abbrev pub with_input : Text → Connection → Connection
with_input s c = record c { input_buffer = s }

plain_byte :
    (b : ℕ) (c : Connection)
    → process_telnet_bytes (iac_escaped (b ∷ [])) (enter in_data c) ≡ enter in_data (push_plain b c)
unfolding print_item receive
plain_byte b c = process-item (plain b) c tt

process-data :
    (s : Text) (c : Connection)
    → process_telnet_bytes (iac_escaped s) (enter in_data c)
      ≡ enter in_data (with_input (c.input_buffer ++ s) c)
process-data [] c = unfold process_telnet_bytes iac_escaped in rw append-nil refl
process-data (b ∷ s) c =
    ap (λ t. process_telnet_bytes t (enter in_data c)) (iac_escaped-append (b ∷ []) s)
    ∙ process-append (iac_escaped (b ∷ [])) (iac_escaped s) (enter in_data c)
    ∙ ap (process_telnet_bytes (iac_escaped s)) (plain_byte b c)
    ∙ process-data s (push_plain b c)
    ∙ ap (λ t. enter in_data (with_input t c)) (append_assoc c.input_buffer (b ∷ []) s)

-- Each line with a carriage return and a line break behind it, and a beginning of the next.
abbrev pub typed : List Text → Text → Text
typed [] rest = rest
typed (line ∷ lines) rest = (line ++ b'\r' ∷ []) ++ b'\n' ∷ typed lines rest

chomp-return : (line : Text) → chomp (line ++ b'\r' ∷ []) ≡ line
unfolding chomp
chomp-return [] = refl
chomp-return (c ∷ []) = refl
chomp-return (c ∷ d ∷ s) = ap (λ t. c ∷ t) (chomp-return (d ∷ s))

Lacks-return : (line : Text) → Lacks b'\n' line → Lacks b'\n' (line ++ b'\r' ∷ [])
Lacks-return [] h = (refl, tt)
Lacks-return (c ∷ s) h = (h.0, Lacks-return s h.1)

input-send : (text : Text) (c : Connection) → (send text c).input_buffer ≡ c.input_buffer
unfolding send put_on_wire
input-send text c =
    if_both (λ (d : Connection). d.input_buffer ≡ c.input_buffer) (not c.is_open) (λ _. refl)
      λ _.
        if_both (λ (d : Connection). d.input_buffer ≡ c.input_buffer)
          (c.use_web_socket && not c.ws_handshake_done) (λ _. refl) (λ _. refl)

input-take_line : (rest : Text) (c : Connection) → (take_line rest c).input_buffer ≡ rest
unfolding take_line
input-take_line rest c =
    if_both (λ (d : Connection). d.input_buffer ≡ rest) c.echo_suppressed
      (λ _.
        input-send (iac ∷ wont_code ∷ echo ∷ [])
          (record c { input_buffer = rest; echo_suppressed = false }))
      (λ _. refl)

take_lines-typed :
    (n : ℕ) (lines : List Text) (rest : Text) (c : Connection)
    → All (Lacks b'\n') lines
    → Lacks b'\n' rest
    → c.input_buffer ≡ typed lines rest
    → length (typed lines rest) < n
    → Returns (λ r. (r.0 ≡ lines) × (r.1.input_buffer ≡ rest)) (take_lines n c)
unfolding take_lines
take_lines-typed zero lines rest c h k e b = absurd (omega arith)
take_lines-typed (suc n) [] rest c h k e b =
    let cut : split_at b'\n' c.input_buffer ≡ none =
      ap (split_at b'\n') e ∙ split_at-none b'\n' rest k in
    (([], c), rw (cut, take_lines) refl, (refl, e))
take_lines-typed (suc n) (line ∷ lines) rest c h k e b =
    let more = typed lines rest in
    let cut : split_at b'\n' c.input_buffer ≡ some (line ++ b'\r' ∷ [], more) =
      ap (split_at b'\n') e
      ∙ split_at-append b'\n' (line ++ b'\r' ∷ []) more (Lacks-return line h.0) in
    let (r, runs, (read, left)) =
      take_lines-typed n lines rest (take_line more c) h.1 k (input-take_line more c)
        (omega (arith, length-append (line ++ b'\r' ∷ []) (b'\n' ∷ more))) in
    (
      (line ∷ r.0, r.1),
      rw (cut, runs, take_lines) (ap (λ l. ok (l ∷ r.0, r.1)) (chomp-return line)),
      (ap (λ ls. line ∷ ls) read, left),
    )

abbrev pub gots : List Text → List Reading
gots [] = []
gots (s ∷ pieces) = got s ∷ gots pieces

abbrev pub concat : List Text → Text
concat [] = []
concat (s ∷ pieces) = s ++ concat pieces

read_chunk-gots : (pieces : List Text) → read_chunk (gots pieces) ≡ (concat pieces, false)
unfolding read_chunk
read_chunk-gots [] = refl
read_chunk-gots (s ∷ pieces) = rw (read_chunk-gots pieces) refl

abbrev Reads : List Text → Text → Result (List Text × Connection) → Type 0
Reads lines rest r = Returns (λ r. (r.0 ≡ lines) × (r.1.input_buffer ≡ rest)) r

process_input-typed :
    (lines : List Text) (rest : Text) (c : Connection)
    → All (Lacks b'\n') lines
    → Lacks b'\n' rest
    → c.input_buffer ≡ []
    → Reads lines rest (process_input (iac_escaped (typed lines rest)) (enter in_data c))
unfolding process_input
process_input-typed lines rest c h k e =
    let text = typed lines rest in
    let arrived : process_telnet_bytes (iac_escaped text) (enter in_data c)
        ≡ enter in_data (with_input text c) =
      process-data text c ∙ ap (λ t. enter in_data (with_input (t ++ text) c)) e in
    subst (λ (d : Connection). Reads lines rest (take_lines (suc (length d.input_buffer)) d))
      (sym arrived)
      (take_lines-typed (suc (length text)) lines rest (enter in_data (with_input text c)) h k refl
        (omega arith))

-- The lines that a telnet client types, each ended by carriage return and line break and with its IAC
-- bytes doubled, are the lines that are read, in whatever pieces the socket hands over their bytes, and
-- the beginning of a further line stays in the buffer; this for an open connection without WebSocket
-- whose telnet state is between two items and whose buffer is empty, and lines without a line break.
pub poll_lines-typed :
    (sha1_base64 : Text → Text) (pieces lines : List Text) (rest : Text) (c : Connection)
    → c.is_open ≡ true
    → c.use_web_socket ≡ false
    → c.input_buffer ≡ []
    → All (Lacks b'\n') lines
    → Lacks b'\n' rest
    → concat pieces ≡ iac_escaped (typed lines rest)
    → Returns
        (λ r. (r.0 ≡ lines) × (r.1.input_buffer ≡ rest))
        (poll_lines sha1_base64 (gots pieces) (enter in_data c))
unfolding poll_lines
poll_lines-typed sha1_base64 pieces lines rest c opened plain_socket empty h k e =
    rw (read_chunk-gots pieces, e)
      (if_both (Reads lines rest) (not c.is_open) (λ closed. absurd (cc))
        λ _.
          if_both (Reads lines rest) (c.use_web_socket && not c.ws_handshake_done)
            (λ web. absurd (ground arith))
            λ _.
              if_both (Reads lines rest)
                (c.use_web_socket && not (length (iac_escaped (typed lines rest)) == 0))
                (λ web. absurd (ground arith))
                (λ _.
                  process_input-typed lines rest (record c { closed = c.closed || false }) h k
                    empty))
