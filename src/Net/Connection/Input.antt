-- ===== src/Net/Connection/Input.antt =====
-- `Connection::pollLines`, with the WebSocket handshake.
use kjdmud.Base.{
  ℕ, zero, suc, ◌+◌, ◌&&◌, Bool, true, false, not, ◌||◌, List, [], ◌∷◌, ◌++◌, none, some, length,
  leb, ◌==◌, if◌then◌else◌, take, drop,
}
use kjdmud.Core.Text.{Text, codes}
use kjdmud.Core.Split.{split_at, find_text}
use kjdmud.Core.Errors.{Result, ok, err, out_of_fuel, ◌>>=◌}
use kjdmud.Net.Connection.State.{
  Connection, Outcome, wrote, interrupted, failed, iac, wont_code, echo,
}
use kjdmud.Net.Connection.Output.{send}
use kjdmud.Net.Connection.Frames.{decode_ws_frames}
use kjdmud.Net.Connection.Telnet.{process_telnet_bytes}

-- What a `read` on the socket does.
pub data Reading : Type 0 where
  got : Text → Reading
  at_end again retry broken : Reading

-- The loop of reads: the chunk, and whether the connection is closed; behind the readings `again`.
unfoldable pub read_chunk : List Reading → Text × Bool
read_chunk [] = ([], false)
read_chunk (got s ∷ readings) = let (chunk, closed) = read_chunk readings in (s ++ chunk, closed)
read_chunk (at_end ∷ readings) = ([], true)
read_chunk (again ∷ readings) = ([], false)
read_chunk (retry ∷ readings) = read_chunk readings
read_chunk (broken ∷ readings) = ([], true)

abbrev lower : ℕ → ℕ
lower c = if leb 65 c && leb c 90 then c + 32 else c

unfoldable pub lowered : Text → Text
lowered [] = []
lowered (c ∷ s) = lower c ∷ lowered s

unfoldable pub skip_tabs : Text → Text
skip_tabs [] = []
skip_tabs (c ∷ s) = let rest = skip_tabs s in if c == 32 || c == b'\t' then rest else c ∷ s

-- Up to the first carriage return, or else up to the first line break, or else all.
unfoldable pub header_end : Text → Text
unfolding split_at
header_end s = elim (split_at b'\r' s) [
  | some (value, rest) ↦ value
  | none ↦ elim (split_at b'\n' s) [ some (value, rest) ↦ value | none ↦ s ]
]

unfoldable pub header_value : Text → Text → Text
unfolding lowered find_text split_at skip_tabs header_end
header_value headers name = elim (find_text (lowered name ++ b':' ∷ []) (lowered headers)) [
  | none ↦ []
  | some (before, from) ↦ elim (split_at b':' (drop (length before) headers)) [
    | none ↦ []
    | some (field, value) ↦ header_end (skip_tabs value)
  ]
]

-- The loop that writes the response: a write of nothing is tried again, an error ends it.
unfoldable pub write_response : List Outcome → Text → Text × List Outcome × Bool
write_response outcomes [] = ([], outcomes, true)
write_response [] (b ∷ wire) = ([], [], false)
write_response (interrupted ∷ outcomes) (b ∷ wire) = write_response outcomes (b ∷ wire)
write_response (failed ∷ outcomes) (b ∷ wire) = ([], outcomes, false)
write_response (wrote zero ∷ outcomes) (b ∷ wire) = write_response outcomes (b ∷ wire)
write_response (wrote (suc n) ∷ outcomes) (b ∷ wire) =
    let (taken, left, done) = write_response outcomes (drop n wire) in
    (b ∷ (take n wire ++ taken), left, done)

abbrev pub ws_magic : Text
ws_magic = codes "258EAFA5-E914-47DA-95CA-C5AB0DC85B11"

abbrev pub response : Text → Text
response accept =
    codes
      "HTTP/1.1 101 Switching Protocols\r\nUpgrade: websocket\r\nConnection: Upgrade\r\nSec-WebSocket-Accept: "
    ++ (accept ++ codes "\r\n\r\n")

-- What follows the response: the text that was held back, and the frames behind the request.
unfoldable pub begin_frames : Text → Connection → Result (Connection × Bool)
unfolding send decode_ws_frames
begin_frames leftover c =
    let ready = record c { ws_handshake_done = true } in
    let d =
      if length ready.ws_pending_send == 0
      then ready
      else send ready.ws_pending_send (record ready { ws_pending_send = [] }) in
    if length leftover == 0
    then ok (d, true)
    else decode_ws_frames leftover d >>= λ r.
        ok (record r.1 { input_buffer = r.1.input_buffer ++ r.0 }, true)

-- `sha1_base64` is OpenSSL's SHA-1, in base 64.
module _ (sha1_base64 : Text → Text) where
  unfoldable pub accept_upgrade : Text → Text → Connection → Result (Connection × Bool)
  unfolding header_value write_response begin_frames
  accept_upgrade headers leftover c =
      let key = header_value headers (codes "Sec-WebSocket-Key") in
      let (taken, left, done) =
        write_response c.outcomes (response (sha1_base64 (key ++ ws_magic))) in
      let d = record c { outcomes = left; sent = c.sent ++ taken } in
      if length key == 0
      then ok (record c { closed = true }, false)
      else if done
      then begin_frames leftover d
      else ok (record d { closed = true }, false)

  unfoldable pub try_complete_web_socket_handshake : Connection → Result (Connection × Bool)
  unfolding accept_upgrade find_text
  try_complete_web_socket_handshake c = elim (find_text (codes "\r\n\r\n") c.ws_http_buffer) [
    | none ↦ ok (c, false)
    | some (headers, from) ↦ accept_upgrade headers (drop 4 from) (record c { ws_http_buffer = [] })
  ]

-- `if (!line.empty() && line.back() == '\r') line.pop_back();`
unfoldable pub chomp : Text → Text
chomp [] = []
chomp (c ∷ []) = if c == b'\r' then [] else c ∷ []
chomp (c ∷ d ∷ s) = c ∷ chomp (d ∷ s)

-- A line is taken off the buffer, and the echo comes back with it.
unfoldable pub take_line : Text → Connection → Connection
unfolding send
take_line rest c =
    let d = record c { input_buffer = rest } in
    if d.echo_suppressed
    then send (iac ∷ wont_code ∷ echo ∷ []) (record d { echo_suppressed = false })
    else d

unfoldable pub take_lines : ℕ → Connection → Result (List Text × Connection)
unfolding chomp take_line split_at
take_lines zero c = err out_of_fuel
take_lines (suc n) c = elim (split_at b'\n' c.input_buffer) [
  | none ↦ ok ([], c)
  | some (line, rest) ↦ take_lines n (take_line rest c) >>= λ r. ok (chomp line ∷ r.0, r.1)
]

unfoldable pub process_input : Text → Connection → Result (List Text × Connection)
unfolding process_telnet_bytes take_lines
process_input raw c =
    let d = process_telnet_bytes raw c in take_lines (suc (length d.input_buffer)) d

unfoldable pub poll_lines :
    (Text → Text) → List Reading → Connection → Result (List Text × Connection)
unfolding read_chunk process_input try_complete_web_socket_handshake decode_ws_frames
poll_lines sha1_base64 readings c =
    let (chunk, at_close) = read_chunk readings in
    let d = record c { closed = c.closed || at_close } in
    if not c.is_open
    then ok ([], c)
    else if c.use_web_socket && not c.ws_handshake_done
    then (try_complete_web_socket_handshake sha1_base64
          (record d { ws_http_buffer = d.ws_http_buffer ++ chunk })
        >>= λ r. if r.1 then process_input [] r.0 else ok ([], r.0))
    else if c.use_web_socket && not (length chunk == 0)
    then (decode_ws_frames chunk d >>= λ r. process_input r.0 r.1)
    else process_input chunk d
