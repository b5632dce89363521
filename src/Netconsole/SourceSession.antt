-- ===== src/Netconsole/SourceSession.antt =====
-- internal/netconsole/netconsole.go: SourceRCON, from its authentication to its answer.
-- The network and the control are `refusal`: what a write of a frame is refused with, where its size,
-- Control.check or the connection refuses it. Request ids, the password's frame and the events that
-- the loop selects are given; the answer is the bytes that decodeText turns into valid UTF-8.
use ludock.Common.{
  ℕ, Bool, true, false, not, Option, none, some, List, [], ◌∷◌, ◌++◌, ◌+◌, ◌-◌, ◌^◌, ◌&&◌, ◌||◌,
  Bytes, ltb, nat_beq, if◌then◌else◌, length, is_empty, Error, Result, ok, err, ◌>>=◌,
  rcon_too_large, rcon_failed, rcon_unfinished, rcon_closed, rcon_incomplete, rcon_timeout,
  console_cancelled,
}
use ludock.Netconsole.Rcon.{max_packet, encode_rcon, decode_rcon, RconPacket}

-- The variables of the loop, and the frames that were written.
pub record State : Type 0 where
  pub buffer : Bytes
  pub authenticated : Bool
  pub command_sent : Bool
  pub received : Bool
  pub response : Bytes
  pub writes : List Bytes

-- What the loop selects.
pub data Event : Type 0 where
  arrived : Bytes → Event
  closed overflowed quiet expired cancelled : Event

pub record Request : Type 0 where
  pub auth_id : ℕ
  pub command_id : ℕ
  pub command : Bytes
  pub refusal : Bytes → Option Error

abbrev pub after_auth : Bytes → State
after_auth auth = record {
  buffer = [];
  authenticated = false;
  command_sent = false;
  received = false;
  response = [];
  writes = auth ∷ [];
}

abbrev pub write_command : State → Bytes → Option Error → Result State
write_command s frame (some e) = err e
write_command s frame none =
    ok (record s { authenticated = true; command_sent = true; writes = s.writes ++ frame ∷ [] })

abbrev pub send_command : Request → State → Result State
send_command q s =
    encode_rcon q.command_id 2 q.command >>= λ frame. write_command s frame (q.refusal frame)

-- A packet before the authentication; an id of -1 is 2 ^ 32 - 1.
abbrev pub on_auth_packet : Request → State → RconPacket → Result State
on_auth_packet q s packet =
    if nat_beq packet.id (2 ^ 32 - 1)
    then err rcon_failed
    else if nat_beq packet.id q.auth_id && nat_beq packet.kind 2
    then send_command q s
    else ok s

abbrev pub on_answer_packet : Request → State → RconPacket → Result State
on_answer_packet q s packet =
    if not s.command_sent || not (nat_beq packet.id q.command_id)
    then ok s
    else if ltb max_packet (length s.response + length packet.body)
    then err rcon_too_large
    else ok (record s { received = true; response = s.response ++ packet.body })

-- The body of the loop over the packets.
unfoldable pub on_packet : Request → State → RconPacket → Result State
on_packet q s packet =
    if s.authenticated then on_answer_packet q s packet else on_auth_packet q s packet

unfoldable pub on_packets : Request → State → List RconPacket → Result State
on_packets q s [] = ok s
on_packets q s (packet ∷ packets) = on_packet q s packet >>= λ t. on_packets q t packets

-- Bytes that have arrived.
unfoldable pub on_data : Request → State → Bytes → Result State
on_data q s bytes = decode_rcon (s.buffer ++ bytes) >>= λ decoded.
    on_packets q (record s { buffer = decoded.1 }) decoded.0

abbrev pub on_close : State → Result Bytes
on_close s =
    if not s.authenticated
    then err rcon_unfinished
    else if not s.command_sent
    then err rcon_closed
    else if not (is_empty s.buffer)
    then err rcon_incomplete
    else ok s.response

-- The quiet timer is set where an answer has come and no part of a packet waits.
abbrev pub is_quiet : State → Bool
is_quiet s = s.received && is_empty s.buffer

-- The loop over the events; `none` is a loop that they do not end.
unfoldable pub run : Request → Result State → List Event → Option (Result Bytes)
run q (err e) events = some (err e)
run q (ok s) [] = none
run q (ok s) (arrived bytes ∷ events) = run q (on_data q s bytes) events
run q (ok s) (closed ∷ events) = some (on_close s)
run q (ok s) (overflowed ∷ events) = some (err rcon_too_large)
run q (ok s) (quiet ∷ events) =
    let rest = run q (ok s) events in if is_quiet s then some (ok s.response) else rest
run q (ok s) (expired ∷ events) = some (err rcon_timeout)
run q (ok s) (cancelled ∷ events) = some (err console_cancelled)

-- SourceRCON once it is connected: the password's frame goes first.
unfoldable pub source_rcon : Request → Bytes → List Event → Option (Result Bytes)
source_rcon q password events =
    let start = encode_rcon q.auth_id 3 password >>= λ auth. elim (q.refusal auth) [
      | some e ↦ err e
      | none ↦ ok (after_auth auth)
    ] in
    run q start events
