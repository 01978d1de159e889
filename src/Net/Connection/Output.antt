-- ===== src/Net/Connection/Output.antt =====
-- `Connection::send`, with `encodeWsFrame`.
use kjdmud.Base.{
  ℕ, zero, suc, ◌/◌, ◌%◌, ◌^◌, not, ◌&&◌, List, [], ◌∷◌, ◌++◌, length, leb, if◌then◌else◌, take,
  drop,
}
use kjdmud.Core.Text.{Text}
use kjdmud.Net.Connection.State.{Connection, Outcome, wrote, interrupted, failed}

-- The loop of `send`: what is taken, and the outcomes that are left.
unfoldable pub write_all : List Outcome → Text → Text × List Outcome
write_all [] wire = ([], [])
write_all (o ∷ outcomes) [] = ([], o ∷ outcomes)
write_all (interrupted ∷ outcomes) (b ∷ wire) = write_all outcomes (b ∷ wire)
write_all (failed ∷ outcomes) (b ∷ wire) = ([], outcomes)
write_all (wrote zero ∷ outcomes) (b ∷ wire) = ([], outcomes)
write_all (wrote (suc n) ∷ outcomes) (b ∷ wire) =
    let (taken, left) = write_all outcomes (drop n wire) in (b ∷ (take n wire ++ taken), left)

-- `n` bytes of a number, the highest first: `(len >> (i * 8)) & 0xff` for `i` from `n - 1` down to 0.
unfoldable pub big_endian : ℕ → ℕ → Text
big_endian zero len = []
big_endian (suc i) len = (len / 256 ^ i % 256) ∷ big_endian i len

unfoldable pub encode_ws_frame : Text → Text
unfolding big_endian
encode_ws_frame payload =
    let len = length payload in
    let header =
      if leb len 125
      then len ∷ []
      else if leb len 65535
      then 126 ∷ big_endian 2 len
      else 127 ∷ big_endian 8 len in
    129 ∷ (header ++ payload)

-- Both writes of a connection go through `rawWrite`.
unfoldable pub put_on_wire : Text → Connection → Connection
unfolding write_all
put_on_wire wire c =
    let (taken, left) = write_all c.outcomes wire in
    record c { outcomes = left; sent = c.sent ++ taken }

unfoldable pub send : Text → Connection → Connection
unfolding put_on_wire encode_ws_frame
send text c =
    if not c.is_open
    then c
    else if c.use_web_socket && not c.ws_handshake_done
    then record c { ws_pending_send = c.ws_pending_send ++ text }
    else put_on_wire (if c.use_web_socket then encode_ws_frame text else text) c
