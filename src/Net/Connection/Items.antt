-- ===== src/Net/Connection/Items.antt =====
-- What a client's bytes mean: an independent description of the telnet stream, which the automaton of
-- `Telnet` implements.
use kjdmud.Base.{
  ℕ, ◌≡◌, refl, ap, ◌∙◌, false, ◌||◌, List, [], ◌∷◌, ◌++◌, append_assoc, append-nil, ◌==◌, All,
  arith, ==_iff, Bool-cases, inl, inr,
}
use kjdmud.Core.Text.{Text}
use kjdmud.Net.Connection.State.{
  Connection, TelnetState, in_data, in_will, in_wont, in_do, in_dont, in_sb, in_sb_iac, iac,
  do_code, wont_code, will_code, dont_code, sb_code, se_code,
}
use kjdmud.Net.Connection.Protocols.{iac_escaped}
use kjdmud.Net.Connection.Telnet.{
  handle_negotiation, handle_buffer, handle_subnegotiation, push_plain, push_sb, enter, step_iac,
  step_sb_iac, step_from, process_telnet_bytes,
}

-- Who offers or refuses an option.
pub data Verb : Type 0 where
  will wont do_it dont : Verb

-- A byte of data; a command of two bytes; an option offered, asked for or refused; a subnegotiation;
-- one that breaks off at a command.
pub data Item : Type 0 where
  plain : ℕ → Item
  command : ℕ → Item
  negotiation : Verb → ℕ → Item
  subnegotiation : Text → Item
  broken : Text → ℕ → Item

abbrev pub verb_code : Verb → ℕ
verb_code will = will_code
verb_code wont = wont_code
verb_code do_it = do_code
verb_code dont = dont_code

abbrev pub verb_state : Verb → TelnetState
verb_state will = in_will
verb_state wont = in_wont
verb_state do_it = in_do
verb_state dont = in_dont

-- A command is none of the codes that begin something longer.
abbrev pub IsItem : Item → Type 0
IsItem (command b) =
    ((b == iac)
      || (b == sb_code)
      || (b == will_code)
      || (b == wont_code)
      || (b == do_code)
      || (b == dont_code))
    ≡ false
IsItem (broken s b) = ((b == iac) || (b == se_code)) ≡ false
IsItem _ = Unit

unfoldable pub print_item : Item → Text
unfolding iac_escaped
print_item (plain b) = iac_escaped (b ∷ [])
print_item (command b) = iac ∷ b ∷ []
print_item (negotiation v option) = iac ∷ verb_code v ∷ option ∷ []
print_item (subnegotiation s) = iac ∷ sb_code ∷ (iac_escaped s ++ iac ∷ se_code ∷ [])
print_item (broken s b) = iac ∷ sb_code ∷ (iac_escaped s ++ iac ∷ b ∷ [])

unfoldable pub print_items : List Item → Text
unfolding print_item
print_items [] = []
print_items (i ∷ items) = print_item i ++ print_items items

abbrev pub with_buffer : Text → Connection → Connection
with_buffer s c = record c { sb_buffer = s }

-- Data are input; an option is negotiated; a subnegotiation is handled with its text.
unfoldable pub receive : Item → Connection → Connection
receive (plain b) c = push_plain b c
receive (command b) c = c
receive (negotiation v option) c = handle_negotiation (verb_state v) option (enter (verb_state v) c)
receive (subnegotiation s) c = handle_buffer s (enter in_sb_iac (with_buffer s c))
receive (broken s b) c = with_buffer s c

unfoldable pub receive_all : List Item → Connection → Connection
unfolding receive
receive_all [] c = c
receive_all (i ∷ items) c = receive_all items (receive i c)

pub process-append :
    (s t : Text) (c : Connection)
    → process_telnet_bytes (s ++ t) c ≡ process_telnet_bytes t (process_telnet_bytes s c)
unfolding process_telnet_bytes
process-append [] t c = refl
process-append (b ∷ s) t c = process-append s t (step_from c.telnet_state b c)

sb_byte :
    (b : ℕ) (s : Text) (c : Connection)
    → process_telnet_bytes (iac_escaped (b ∷ s)) (enter in_sb c)
      ≡ process_telnet_bytes (iac_escaped s) (enter in_sb (push_sb b c))
unfolding process_telnet_bytes iac_escaped step_from step_sb_iac
sb_byte b s c = elim (Bool-cases (b == iac)) [
  | inl special ↦ rw (special, (==_iff b iac).0 special) refl
  | inr other ↦ rw (other, process_telnet_bytes, step_from) (rw other refl)
]

process-escaped_sb :
    (s : Text) (c : Connection)
    → process_telnet_bytes (iac_escaped s) (enter in_sb c)
      ≡ enter in_sb (with_buffer (c.sb_buffer ++ s) c)
process-escaped_sb [] c = unfold process_telnet_bytes iac_escaped in rw append-nil refl
process-escaped_sb (b ∷ s) c =
    sb_byte b s c
    ∙ process-escaped_sb s (push_sb b c)
    ∙ ap (λ t. enter in_sb (with_buffer t c)) (append_assoc c.sb_buffer (b ∷ []) s)

process-sb :
    (s : Text) (b : ℕ) (c : Connection)
    → process_telnet_bytes (iac ∷ sb_code ∷ (iac_escaped s ++ iac ∷ b ∷ [])) (enter in_data c)
      ≡ step_sb_iac b (enter in_sb_iac (with_buffer s c))
unfolding process_telnet_bytes step_from step_iac
process-sb s b c =
    process-append (iac_escaped s) (iac ∷ b ∷ []) (enter in_sb (with_buffer [] c))
    ∙ ap (process_telnet_bytes (iac ∷ b ∷ [])) (process-escaped_sb s (with_buffer [] c))

pub process-item :
    (i : Item) (c : Connection)
    → IsItem i
    → process_telnet_bytes (print_item i) (enter in_data c) ≡ enter in_data (receive i c)
unfolding process_telnet_bytes print_item iac_escaped receive step_from step_iac step_sb_iac
    handle_subnegotiation
process-item (plain b) c k = elim (Bool-cases (b == iac)) [
  | inl special ↦ rw (special, (==_iff b iac).0 special) refl
  | inr other ↦ rw (other, process_telnet_bytes, step_from) (rw other refl)
]
process-item (command b) c k = ground arith
process-item (negotiation will option) c k = refl
process-item (negotiation wont option) c k = refl
process-item (negotiation do_it option) c k = refl
process-item (negotiation dont option) c k = refl
process-item (subnegotiation s) c k = process-sb s se_code c
process-item (broken s b) c k = process-sb s b c ∙ ground arith

-- The bytes of any sequence of items do to a connection between two items what the items mean, one
-- after the other, and leave it between two items.
pub process-print :
    (items : List Item) (c : Connection)
    → All IsItem items
    → process_telnet_bytes (print_items items) (enter in_data c)
      ≡ enter in_data (receive_all items c)
unfolding print_items receive_all
process-print [] c h = unfold process_telnet_bytes in refl
process-print (i ∷ items) c h =
    process-append (print_item i) (print_items items) (enter in_data c)
    ∙ ap (process_telnet_bytes (print_items items)) (process-item i c h.0)
    ∙ process-print items (receive i c) h.1
