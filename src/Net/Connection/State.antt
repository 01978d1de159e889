-- ===== src/Net/Connection/State.antt =====
-- The fields of `Connection`, and the telnet constants.
use kjdmud.Base.{ℕ, Bool, List}
use kjdmud.Core.Text.{Text}

abbrev pub iac : ℕ
iac = 255

abbrev pub dont_code : ℕ
dont_code = 254

abbrev pub do_code : ℕ
do_code = 253

abbrev pub wont_code : ℕ
wont_code = 252

abbrev pub will_code : ℕ
will_code = 251

abbrev pub sb_code : ℕ
sb_code = 250

abbrev pub se_code : ℕ
se_code = 240

abbrev pub echo : ℕ
echo = 1

abbrev pub ttype : ℕ
ttype = 24

abbrev pub naws : ℕ
naws = 31

abbrev pub msdp : ℕ
msdp = 69

abbrev pub mssp : ℕ
mssp = 70

abbrev pub msp : ℕ
msp = 90

abbrev pub mxp : ℕ
mxp = 91

abbrev pub zmp : ℕ
zmp = 93

abbrev pub gmcp : ℕ
gmcp = 201

-- `TelnetState`.
pub data TelnetState : Type 0 where
  in_data in_iac in_will in_wont in_do in_dont in_sb in_sb_iac : TelnetState

-- What a `write` on the socket does: so many bytes are taken, it is to be tried again (`EINTR`), or
-- it fails.
pub data Outcome : Type 0 where
  wrote : ℕ → Outcome
  interrupted failed : Outcome

-- `fd_ >= 0` is `is_open`. The writes that are still to come have the outcomes `outcomes`, and fail
-- behind them; `sent` is what was taken so far.
pub record Connection : Type 0 where
  pub is_open : Bool
  pub closed : Bool
  pub outcomes : List Outcome
  pub sent : Text
  pub use_web_socket : Bool
  pub ws_handshake_done : Bool
  pub telnet_offered : Bool
  pub ws_http_buffer : Text
  pub ws_frame_buffer : Text
  pub ws_pending_send : Text
  pub gmcp_enabled : Bool
  pub gmcp_enable_negotiated : Bool
  pub incoming_gmcp : List Text
  pub mssp_negotiated : Bool
  pub msdp_enabled : Bool
  pub msdp_enable_negotiated : Bool
  pub incoming_msdp : List (Text × Text)
  pub mxp_enabled : Bool
  pub msp_enabled : Bool
  pub msp_enable_negotiated : Bool
  pub zmp_enabled : Bool
  pub incoming_zmp : List (Text × List Text)
  pub input_buffer : Text
  pub telnet_state : TelnetState
  pub sb_buffer : Text
  pub echo_suppressed : Bool
  pub terminal_width : ℕ
  pub terminal_height : ℕ
  pub window_size_updated : Bool
  pub terminal_type : Text
  pub terminal_type_updated : Bool
