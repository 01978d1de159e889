-- ===== src/Net/Connection/Delivery.antt =====
-- A message that one connection sends is understood by the other side's automaton.
use kjdmud.Base.{
  ◌<◌, ◌≡◌, refl, sym, ap, ◌∙◌, true, List, [], ◌∷◌, ◌++◌, append_assoc, ◌==◌, All, arith,
  Bool-cases, inl, inr, length,
}
use kjdmud.Core.Text.{Text}
use kjdmud.Core.Split.{split_after, Lacks, split_at-append, split_after-append}
use kjdmud.Net.Connection.State.{Connection, iac, in_data, in_sb_iac, gmcp, msdp, zmp}
use kjdmud.Net.Connection.Protocols.{
  iac_escaped, gmcp_message, msdp_message, zmp_fields, zmp_message,
}
use kjdmud.Net.Connection.Telnet.{
  enter, handle_buffer, handle_payload, receive_gmcp, receive_msdp, msdp_pair, receive_zmp, add_zmp,
  ends_in_nul, process_telnet_bytes,
}
use kjdmud.Net.Connection.Items.{subnegotiation, print_item, receive, with_buffer, process-item}

pub iac_escaped-append : (s t : Text) → iac_escaped (s ++ t) ≡ iac_escaped s ++ iac_escaped t
unfolding iac_escaped
iac_escaped-append [] t = refl
iac_escaped-append (c ∷ s) t = elim (Bool-cases (c == iac)) [
  | inl special ↦ rw (special, iac_escaped-append s t) refl
  | inr other ↦ rw (other, iac_escaped-append s t) refl
]

-- The fields of a ZMP message, each with a NUL behind it.
abbrev pub joined : List Text → Text
joined [] = []
joined (arg ∷ args) = arg ++ 0 ∷ joined args

zmp_fields-joined : (args : List Text) → zmp_fields args ≡ iac_escaped (joined args)
unfolding zmp_fields iac_escaped
zmp_fields-joined [] = refl
zmp_fields-joined (arg ∷ args) =
    ap (λ t. iac_escaped arg ++ 0 ∷ t) (zmp_fields-joined args)
    ∙ sym (iac_escaped-append arg (0 ∷ joined args))

split_after-joined : (args : List Text) → All (Lacks 0) args → split_after 0 (joined args) ≡ args
split_after-joined [] h = unfold split_after in refl
split_after-joined (arg ∷ args) h =
    split_after-append 0 arg (joined args) h.0 ∙ ap (λ t. arg ∷ t) (split_after-joined args h.1)

ends_in_nul-append : (s : Text) (args : List Text) → ends_in_nul (s ++ 0 ∷ joined args) ≡ true
ends_in_nul-append [] [] = refl
ends_in_nul-append [] ([] ∷ args) = ends_in_nul-append [] args
ends_in_nul-append [] ((b ∷ s) ∷ args) = ends_in_nul-append (b ∷ s) args
ends_in_nul-append (b ∷ []) args = ends_in_nul-append [] args
ends_in_nul-append (b ∷ d ∷ s) args = ends_in_nul-append (d ∷ s) args

-- What the automaton does with a message, from between two items.
delivered :
    (s : Text) (c : Connection)
    → process_telnet_bytes (print_item (subnegotiation s)) (enter in_data c)
      ≡ enter in_data (handle_buffer s (enter in_sb_iac (with_buffer s c)))
unfolding receive
delivered s c = process-item (subnegotiation s) c tt

gmcp_message-print : (s : Text) → gmcp_message s ≡ print_item (subnegotiation (gmcp ∷ s))
unfolding gmcp_message print_item iac_escaped
gmcp_message-print s = refl

msdp_message-print :
    (name value : Text)
    → msdp_message name value ≡ print_item (subnegotiation (msdp ∷ 1 ∷ (name ++ 2 ∷ value)))
unfolding msdp_message print_item iac_escaped
msdp_message-print name value = rw (iac_escaped-append name, append_assoc) refl

zmp_message-print :
    (command : Text) (args : List Text)
    → zmp_message command args ≡ print_item (subnegotiation (zmp ∷ joined (command ∷ args)))
unfolding zmp_message print_item iac_escaped
zmp_message-print command args = rw (zmp_fields-joined (command ∷ args)) refl

gmcp-arrives :
    (s : Text) (c : Connection)
    → 0 < length s
    → (process_telnet_bytes (gmcp_message s) (enter in_data c)).incoming_gmcp
      ≡ c.incoming_gmcp ++ s ∷ []
unfolding handle_buffer handle_payload receive_gmcp
gmcp-arrives [] c h = absurd (omega arith)
gmcp-arrives (b ∷ s) c h = rw (gmcp_message-print (b ∷ s), delivered (gmcp ∷ b ∷ s) c) refl

msdp_pair-append :
    (name value : Text) → Lacks 2 name → msdp_pair (name ++ 2 ∷ value) ≡ (name, value)
unfolding msdp_pair
msdp_pair-append name value h = rw (split_at-append 2 name value h, msdp_pair) refl

msdp-arrives :
    (name value : Text) (c : Connection)
    → Lacks 2 name
    → (process_telnet_bytes (msdp_message name value) (enter in_data c)).incoming_msdp
      ≡ c.incoming_msdp ++ (name, value) ∷ []
unfolding handle_buffer handle_payload receive_msdp
msdp-arrives name value c h =
    rw
      (
        msdp_message-print name value,
        delivered (msdp ∷ 1 ∷ (name ++ 2 ∷ value)) c,
        msdp_pair-append name value h,
      )
      refl

zmp-arrives :
    (command : Text) (args : List Text) (c : Connection)
    → All (Lacks 0) (command ∷ args)
    → (process_telnet_bytes (zmp_message command args) (enter in_data c)).incoming_zmp
      ≡ c.incoming_zmp ++ (command, args) ∷ []
unfolding handle_buffer handle_payload receive_zmp add_zmp
zmp-arrives command args c h =
    rw
      (
        zmp_message-print command args,
        delivered (zmp ∷ joined (command ∷ args)) c,
        ends_in_nul-append command args,
        split_after-joined (command ∷ args) h,
      )
      refl

-- The messages of GMCP, MSDP and ZMP arrive whole at a connection between two items, whatever bytes
-- they hold, if a GMCP text is not empty, an MSDP name has no byte 2, and no ZMP field has a NUL.
pub messages-arrive :
    (s name value command : Text) (args : List Text) (c : Connection)
    → 0 < length s
    → Lacks 2 name
    → All (Lacks 0) (command ∷ args)
    → ((process_telnet_bytes (gmcp_message s) (enter in_data c)).incoming_gmcp
        ≡ c.incoming_gmcp ++ s ∷ [])
      × ((process_telnet_bytes (msdp_message name value) (enter in_data c)).incoming_msdp
          ≡ c.incoming_msdp ++ (name, value) ∷ [])
      × ((process_telnet_bytes (zmp_message command args) (enter in_data c)).incoming_zmp
          ≡ c.incoming_zmp ++ (command, args) ∷ [])
messages-arrive s name value command args c some_text no_val no_nul = (
  gmcp-arrives s c some_text,
  msdp-arrives name value c no_val,
  zmp-arrives command args c no_nul,
)
