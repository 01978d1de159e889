-- ===== src/Net/Connection/Telnet.antt =====
-- `processTelnetBytes`, `handleNegotiation` and `handleSubnegotiation`.
use kjdmud.Base.{
  ℕ, ◌+◌, ◌*◌, Bool, true, false, ◌||◌, List, [], ◌∷◌, ◌++◌, none, some, ◌==◌, if◌then◌else◌,
}
use kjdmud.Core.Text.{Text}
use kjdmud.Core.Split.{split_at, split_after}
use kjdmud.Net.Connection.State.{
  Connection, TelnetState, in_data, in_iac, in_will, in_wont, in_do, in_dont, in_sb, in_sb_iac, iac,
  do_code, wont_code, will_code, dont_code, sb_code, se_code, echo, ttype, naws, gmcp, mssp, msdp,
  msp, mxp, zmp,
}
use kjdmud.Net.Connection.Output.{send}
use kjdmud.Net.Connection.Protocols.{request_terminal_type}

-- A client's WILL.
unfoldable pub accept_will : ℕ → Connection → Connection
unfolding send request_terminal_type
accept_will option c =
    let agreed = send (iac ∷ do_code ∷ option ∷ []) c in
    if option == echo || option == naws
    then c
    else if option == ttype
    then request_terminal_type c
    else if option == gmcp
    then record agreed { gmcp_enabled = true; gmcp_enable_negotiated = true }
    else if option == msdp
    then record agreed { msdp_enabled = true; msdp_enable_negotiated = true }
    else if option == mxp
    then record agreed { mxp_enabled = true }
    else if option == msp
    then record agreed { msp_enabled = true; msp_enable_negotiated = true }
    else if option == zmp
    then record agreed { zmp_enabled = true }
    else send (iac ∷ dont_code ∷ option ∷ []) c

-- A client's DO.
unfoldable pub accept_do : ℕ → Connection → Connection
unfolding send
accept_do option c =
    if option == echo
    then c
    else if option == gmcp
    then record c { gmcp_enabled = true; gmcp_enable_negotiated = true }
    else if option == mssp
    then record c { mssp_negotiated = true }
    else if option == msdp
    then record c { msdp_enabled = true; msdp_enable_negotiated = true }
    else if option == mxp
    then record c { mxp_enabled = true }
    else if option == msp
    then record c { msp_enabled = true; msp_enable_negotiated = true }
    else if option == zmp
    then record c { zmp_enabled = true }
    else send (iac ∷ wont_code ∷ option ∷ []) c

unfoldable pub handle_negotiation : TelnetState → ℕ → Connection → Connection
unfolding accept_will accept_do
handle_negotiation in_will option c = accept_will option c
handle_negotiation in_do option c = accept_do option c
handle_negotiation _ option c = c

-- 0 is TELQUAL_IS.
unfoldable pub receive_ttype : Text → Connection → Connection
receive_ttype [] c = c
receive_ttype (qualifier ∷ name) c =
    if qualifier == 0 then record c { terminal_type = name; terminal_type_updated = true } else c

unfoldable pub receive_gmcp : Text → Connection → Connection
receive_gmcp [] c = record c { gmcp_enabled = true }
receive_gmcp (b ∷ payload) c = record c {
  incoming_gmcp = c.incoming_gmcp ++ (b ∷ payload) ∷ [];
  gmcp_enabled = true;
}

-- A name and a value with MSDP_VAL, 2, between them, or a name alone.
unfoldable pub msdp_pair : Text → Text × Text
unfolding split_at
msdp_pair s = elim (split_at 2 s) [ none ↦ (s, []) | some (name, value) ↦ (name, value) ]

-- 1 is MSDP_VAR.
unfoldable pub receive_msdp : Text → Connection → Connection
unfolding msdp_pair
receive_msdp [] c = record c { msdp_enabled = true }
receive_msdp (var ∷ s) c =
    if var == 1
    then record c { incoming_msdp = c.incoming_msdp ++ msdp_pair s ∷ []; msdp_enabled = true }
    else record c { msdp_enabled = true }

abbrev pub ends_in_nul : Text → Bool
ends_in_nul [] = false
ends_in_nul (b ∷ []) = b == 0
ends_in_nul (b ∷ d ∷ s) = ends_in_nul (d ∷ s)

unfoldable pub add_zmp : List Text → Connection → Connection
add_zmp [] c = record c { zmp_enabled = true }
add_zmp (command ∷ args) c = record c {
  incoming_zmp = c.incoming_zmp ++ (command, args) ∷ [];
  zmp_enabled = true;
}

unfoldable pub receive_zmp : Text → Connection → Connection
unfolding add_zmp split_after
receive_zmp payload c =
    if ends_in_nul payload
    then add_zmp (split_after 0 payload) c
    else record c { zmp_enabled = true }

-- `(byteAt(1) << 8) | byteAt(2)`, of bytes.
unfoldable pub receive_naws : Text → Connection → Connection
receive_naws (w ∷ x ∷ h ∷ y ∷ s) c = record c {
  terminal_width = w * 256 + x;
  terminal_height = h * 256 + y;
  window_size_updated = true;
}
receive_naws _ c = c

unfoldable pub handle_payload : ℕ → Text → Connection → Connection
unfolding receive_ttype receive_gmcp receive_msdp receive_zmp receive_naws
handle_payload option payload c =
    if option == ttype
    then receive_ttype payload c
    else if option == gmcp
    then receive_gmcp payload c
    else if option == msdp
    then receive_msdp payload c
    else if option == zmp
    then receive_zmp payload c
    else if option == naws
    then receive_naws payload c
    else c

unfoldable pub handle_buffer : Text → Connection → Connection
unfolding handle_payload
handle_buffer [] c = c
handle_buffer (option ∷ payload) c = handle_payload option payload c

unfoldable pub handle_subnegotiation : Connection → Connection
unfolding handle_buffer
handle_subnegotiation c = handle_buffer c.sb_buffer c

-- `plainOut` is `inputBuffer_`.
abbrev pub push_plain : ℕ → Connection → Connection
push_plain b c = record c { input_buffer = c.input_buffer ++ b ∷ [] }

abbrev pub push_sb : ℕ → Connection → Connection
push_sb b c = record c { sb_buffer = c.sb_buffer ++ b ∷ [] }

abbrev pub enter : TelnetState → Connection → Connection
enter t c = record c { telnet_state = t }

-- The byte behind an IAC.
unfoldable pub step_iac : ℕ → Connection → Connection
step_iac b c =
    if b == iac
    then enter in_data (push_plain iac c)
    else if b == will_code
    then enter in_will c
    else if b == wont_code
    then enter in_wont c
    else if b == do_code
    then enter in_do c
    else if b == dont_code
    then enter in_dont c
    else if b == sb_code
    then enter in_sb (record c { sb_buffer = [] })
    else enter in_data c

unfoldable pub step_sb_iac : ℕ → Connection → Connection
unfolding handle_subnegotiation
step_sb_iac b c =
    if b == se_code
    then enter in_data (handle_subnegotiation c)
    else if b == iac
    then enter in_sb (push_sb iac c)
    else enter in_data c

-- The `switch` on the state.
unfoldable pub step_from : TelnetState → ℕ → Connection → Connection
unfolding step_iac step_sb_iac handle_negotiation
step_from in_data b c = if b == iac then enter in_iac c else push_plain b c
step_from in_iac b c = step_iac b c
step_from in_will b c = enter in_data (handle_negotiation in_will b c)
step_from in_wont b c = enter in_data (handle_negotiation in_wont b c)
step_from in_do b c = enter in_data (handle_negotiation in_do b c)
step_from in_dont b c = enter in_data (handle_negotiation in_dont b c)
step_from in_sb b c = if b == iac then enter in_sb_iac c else push_sb b c
step_from in_sb_iac b c = step_sb_iac b c

unfoldable pub process_telnet_bytes : Text → Connection → Connection
unfolding step_from
process_telnet_bytes [] c = c
process_telnet_bytes (b ∷ raw) c = process_telnet_bytes raw (step_from c.telnet_state b c)
