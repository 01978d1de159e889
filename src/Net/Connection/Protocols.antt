-- ===== src/Net/Connection/Protocols.antt =====
-- The messages of the telnet options that the driver sends.
use kjdmud.Base.{ℤ, true, List, [], ◌∷◌, ◌++◌, ◌==◌, if◌then◌else◌}
use kjdmud.Core.Text.{Text, codes}
use kjdmud.Core.Decimal.{to_string}
use kjdmud.Net.Connection.State.{
  Connection, iac, do_code, will_code, sb_code, se_code, echo, ttype, naws, gmcp, mssp, msdp, msp,
  zmp,
}
use kjdmud.Net.Connection.Output.{send}

-- `appendIacEscaped` to an empty text.
unfoldable pub iac_escaped : Text → Text
iac_escaped [] = []
iac_escaped (c ∷ s) = let rest = iac_escaped s in if c == iac then c ∷ iac ∷ rest else c ∷ rest

unfoldable pub gmcp_message : Text → Text
unfolding iac_escaped
gmcp_message payload = iac ∷ sb_code ∷ gmcp ∷ (iac_escaped payload ++ iac ∷ se_code ∷ [])

unfoldable pub send_gmcp : Text → Connection → Connection
unfolding gmcp_message send
send_gmcp payload c = send (gmcp_message payload) c

-- `appendMsspVar`: 1 is MSSP_VAR, 2 is MSSP_VAL.
unfoldable pub mssp_var : Text → Text → Text
unfolding iac_escaped
mssp_var name value = 1 ∷ (iac_escaped name ++ 2 ∷ iac_escaped value)

unfoldable pub mssp_message : Text → ℤ → ℤ → Text
unfolding mssp_var
mssp_message mud_name player_count uptime_seconds =
    iac
    ∷ sb_code
    ∷ mssp
    ∷ (mssp_var (codes "NAME") mud_name
        ++ (mssp_var (codes "PLAYERS") (to_string player_count)
            ++ (mssp_var (codes "UPTIME") (to_string uptime_seconds)
                ++ (mssp_var (codes "CODEBASE") (codes "kjdmud") ++ iac ∷ se_code ∷ []))))

unfoldable pub send_mssp : Text → ℤ → ℤ → Connection → Connection
unfolding mssp_message send
send_mssp mud_name player_count uptime_seconds c =
    send (mssp_message mud_name player_count uptime_seconds) c

unfoldable pub msdp_message : Text → Text → Text
unfolding iac_escaped
msdp_message name value =
    iac ∷ sb_code ∷ msdp ∷ 1 ∷ (iac_escaped name ++ 2 ∷ (iac_escaped value ++ iac ∷ se_code ∷ []))

unfoldable pub send_msdp : Text → Text → Connection → Connection
unfolding msdp_message send
send_msdp name value c = send (msdp_message name value) c

unfoldable pub msp_message : Text → Text
unfolding iac_escaped
msp_message payload = iac ∷ sb_code ∷ msp ∷ (iac_escaped payload ++ iac ∷ se_code ∷ [])

unfoldable pub send_msp_oob : Text → Connection → Connection
unfolding msp_message send
send_msp_oob payload c = if c.msp_enabled then send (msp_message payload) c else c

unfoldable pub zmp_fields : List Text → Text
unfolding iac_escaped
zmp_fields [] = []
zmp_fields (arg ∷ args) = iac_escaped arg ++ 0 ∷ zmp_fields args

unfoldable pub zmp_message : Text → List Text → Text
unfolding zmp_fields
zmp_message command args = iac ∷ sb_code ∷ zmp ∷ (zmp_fields (command ∷ args) ++ iac ∷ se_code ∷ [])

unfoldable pub send_zmp : Text → List Text → Connection → Connection
unfolding zmp_message send
send_zmp command args c = send (zmp_message command args) c

unfoldable pub suppress_echo : Connection → Connection
unfolding send
suppress_echo c =
    if c.echo_suppressed
    then c
    else send (iac ∷ will_code ∷ echo ∷ []) (record c { echo_suppressed = true })

unfoldable pub request_window_size : Connection → Connection
unfolding send
request_window_size c = send (iac ∷ do_code ∷ naws ∷ []) c

-- 1 is TELQUAL_SEND.
unfoldable pub request_terminal_type : Connection → Connection
unfolding send
request_terminal_type c = send (iac ∷ sb_code ∷ ttype ∷ 1 ∷ iac ∷ se_code ∷ []) c

unfoldable pub start_request_terminal_type : Connection → Connection
unfolding send
start_request_terminal_type c = send (iac ∷ do_code ∷ ttype ∷ []) c
