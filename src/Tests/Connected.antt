-- ===== src/Tests/Connected.antt =====
-- A client that talks to a connection.
use kjdmud.Base.{◌≡◌, refl, true, false, [], ◌∷◌, arith, All}
use kjdmud.Core.Text.{codes}
use kjdmud.Core.Errors.{ok, err, out_of_fuel, Returns}
use kjdmud.Net.Connection.State.{Connection, in_data}
use kjdmud.Net.Connection.Protocols.{gmcp_message, msdp_message, zmp_message, iac_escaped}
use kjdmud.Net.Connection.Telnet.{enter, process_telnet_bytes}
use kjdmud.Net.Connection.Items.{
  will, plain, command, negotiation, subnegotiation, print_items, receive_all, process-print,
}
use kjdmud.Net.Connection.Delivery.{messages-arrive}
use kjdmud.Net.Connection.Frames.{decode_loop, decode_ws_frames}
use kjdmud.Net.Connection.FrameLaws.{
  IsDataFrame, masked, unmasked, print_frames, decode_ws_frames-print,
}
use kjdmud.Net.Connection.FrameStuck.{wrapping, decode_loop_stuck}
use kjdmud.Net.Connection.Input.{poll_lines}
use kjdmud.Net.Connection.Typed.{gots, poll_lines-typed}

abbrev fresh : Connection
fresh = record {
  is_open = true;
  closed = false;
  outcomes = [];
  sent = [];
  use_web_socket = false;
  ws_handshake_done = false;
  telnet_offered = true;
  ws_http_buffer = [];
  ws_frame_buffer = [];
  ws_pending_send = [];
  gmcp_enabled = false;
  gmcp_enable_negotiated = false;
  incoming_gmcp = [];
  mssp_negotiated = false;
  msdp_enabled = false;
  msdp_enable_negotiated = false;
  incoming_msdp = [];
  mxp_enabled = false;
  msp_enabled = false;
  msp_enable_negotiated = false;
  zmp_enabled = false;
  incoming_zmp = [];
  input_buffer = [];
  telnet_state = in_data;
  sb_buffer = [];
  echo_suppressed = true;
  terminal_width = 80;
  terminal_height = 24;
  window_size_updated = false;
  terminal_type = [];
  terminal_type_updated = false;
}

process-print_example :
    process_telnet_bytes
      (print_items (
        plain 255
        ∷ negotiation will 201
        ∷ subnegotiation (31 ∷ 0 ∷ 255 ∷ 0 ∷ 50 ∷ [])
        ∷ command 241
        ∷ []))
      (enter in_data fresh)
    ≡ enter in_data (
        receive_all
          (plain 255
            ∷ negotiation will 201
            ∷ subnegotiation (31 ∷ 0 ∷ 255 ∷ 0 ∷ 50 ∷ [])
            ∷ command 241
            ∷ [])
          fresh)
process-print_example =
    process-print
      (plain 255
        ∷ negotiation will 201
        ∷ subnegotiation (31 ∷ 0 ∷ 255 ∷ 0 ∷ 50 ∷ [])
        ∷ command 241
        ∷ [])
      fresh (tt, (tt, (tt, (refl, tt))))

messages-arrive_example :
    ((process_telnet_bytes (gmcp_message (codes "Core.Ping")) (enter in_data fresh)).incoming_gmcp
      ≡ codes "Core.Ping" ∷ [])
    × ((process_telnet_bytes
          (msdp_message (codes "HP") (codes "9"))
          (enter in_data fresh)).incoming_msdp
        ≡ (codes "HP", codes "9") ∷ [])
    × ((process_telnet_bytes
          (zmp_message (codes "zmp.time") (codes "now" ∷ []))
          (enter in_data fresh)).incoming_zmp
        ≡ (codes "zmp.time", codes "now" ∷ []) ∷ [])
messages-arrive_example =
    messages-arrive (codes "Core.Ping") (codes "HP") (codes "9") (codes "zmp.time")
      (codes "now" ∷ []) fresh (omega arith) (refl, (refl, tt))
      (
        (refl, (refl, (refl, (refl, (refl, (refl, (refl, (refl, tt)))))))),
        ((refl, (refl, (refl, tt))), tt),
      )

go_at_IsDataFrame : All IsDataFrame (masked 1 7 200 3 255 (codes "go") ∷ unmasked (codes "at") ∷ [])
go_at_IsDataFrame = (
  (
    refl,
    (omega arith, (omega arith, (omega arith, (omega arith, (omega arith, (omega arith, tt)))))),
    omega arith,
  ),
  (omega arith, tt),
)

decode_ws_frames-print_example :
    decode_ws_frames
      (print_frames (masked 1 7 200 3 255 (codes "go") ∷ unmasked (codes "at") ∷ []))
      fresh
    ≡ ok (codes "goat", fresh)
decode_ws_frames-print_example =
    decode_ws_frames-print (masked 1 7 200 3 255 (codes "go") ∷ unmasked (codes "at") ∷ []) fresh
      go_at_IsDataFrame refl

decode_loop_stuck_example :
    decode_loop 99 [] (record fresh { ws_frame_buffer = wrapping 129 (codes "boo") })
    ≡ err out_of_fuel
decode_loop_stuck_example =
    decode_loop_stuck 129 (codes "boo") []
      (record fresh { ws_frame_buffer = wrapping 129 (codes "boo") }) 99 refl refl

poll_lines-typed_example :
    Returns
      (λ r. (r.0 ≡ codes "sit" ∷ codes "go" ∷ []) × (r.1.input_buffer ≡ codes "no"))
      (poll_lines (λ s. s) (gots (codes "sit\r" ∷ codes "\ngo\r\nno" ∷ [])) (enter in_data fresh))
unfolding iac_escaped
poll_lines-typed_example =
    poll_lines-typed (λ s. s) (codes "sit\r" ∷ codes "\ngo\r\nno" ∷ [])
      (codes "sit" ∷ codes "go" ∷ []) (codes "no") fresh refl refl refl
      ((refl, (refl, (refl, tt))), ((refl, (refl, tt)), tt)) (refl, (refl, tt)) refl
