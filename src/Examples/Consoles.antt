-- ===== src/Examples/Consoles.antt =====
-- The theorems on the network consoles (internal/netconsole/netconsole.go) at concrete inputs.
use ludock.Common.{
  any, ok, none, some, take, drop, true, false, ◌≡◌, refl, List, [], ◌∷◌, ◌++◌, Bytes, codes, arith,
}
use ludock.Netconsole.Rcon.{put_uint32, encode_rcon, decode_rcon, decode_from, before}
use ludock.Netconsole.Frames.{decode_rcon-encode_rcon, decode_rcon-append}
use ludock.Netconsole.SourceSession.{
  State as SessionState, Request, after_auth, arrived, quiet, source_rcon, run, on_packet,
  on_packets, on_data,
}
use ludock.Netconsole.Authentication.{
  Sound, on_chunks, on_chunks-Sound, accepts, on_packets-accepted,
}
use ludock.Netconsole.Telnet.{
  plain, decode, Item, text, negotiate, subnegotiate, sent_all, decode-sent_all,
}

abbrev list_players : Bytes
list_players = codes "list"

abbrev frame : Bytes
frame = put_uint32 14 ++ put_uint32 7 ++ put_uint32 2 ++ list_players ++ 0 ∷ 0 ∷ []

decode_rcon-encode_rcon_example :
    decode_rcon (frame ++ 1 ∷ 2 ∷ [])
    ≡ before (record { id = 7; kind = 2; body = list_players } ∷ []) (decode_rcon (1 ∷ 2 ∷ []))
unfolding encode_rcon
decode_rcon-encode_rcon_example =
    decode_rcon-encode_rcon 7 2 list_players frame (1 ∷ 2 ∷ []) (omega arith) (omega arith) refl

decode_rcon-append_example :
    decode_rcon ((frame ++ 14 ∷ []) ++ 0 ∷ 0 ∷ [])
    ≡ before
        (record { id = 7; kind = 2; body = list_players } ∷ [])
        (decode_rcon (14 ∷ [] ++ 0 ∷ 0 ∷ []))
unfolding decode_rcon decode_from
decode_rcon-append_example =
    decode_rcon-append (frame ++ 14 ∷ []) (0 ∷ 0 ∷ []) (14 ∷ [])
      (record { id = 7; kind = 2; body = list_players } ∷ []) refl

abbrev greeting : List Item
greeting = text (codes "hi") ∷ negotiate 251 1 ∷ subnegotiate (24 ∷ 255 ∷ 1 ∷ []) ∷ []

decode-sent_all_example :
    decode plain (sent_all greeting)
    ≡ record { state = plain; output = codes "hi"; replies = 255 ∷ 254 ∷ 1 ∷ [] }
decode-sent_all_example = decode-sent_all greeting refl

abbrev request : Request
request = record { auth_id = 1; command_id = 2; command = codes "list"; refusal = λ frame. none }

abbrev accepted : Bytes
accepted = put_uint32 10 ++ put_uint32 1 ++ put_uint32 2 ++ 0 ∷ 0 ∷ []

abbrev auth : Bytes
auth = put_uint32 13 ++ put_uint32 1 ++ put_uint32 3 ++ codes "pwd" ++ 0 ∷ 0 ∷ []

abbrev signed_in : SessionState
signed_in = record {
  buffer = [];
  authenticated = true;
  command_sent = true;
  received = false;
  response = [];
  writes =
      auth ∷ (put_uint32 14 ++ put_uint32 2 ++ put_uint32 2 ++ codes "list" ++ 0 ∷ 0 ∷ []) ∷ [];
}

on_chunks-Sound_example : Sound request auth signed_in
unfolding on_chunks on_data on_packets on_packet encode_rcon decode_rcon decode_from
on_chunks-Sound_example =
    on_chunks-Sound request auth signed_in (take 5 accepted ∷ drop 5 accepted ∷ []) refl

-- A signed-in session answers with what the server sent, after a quiet time.
answer_of_list :
    source_rcon request (codes "pwd") (
      arrived accepted
      ∷ arrived (put_uint32 12 ++ put_uint32 2 ++ put_uint32 0 ++ codes "ok" ++ 0 ∷ 0 ∷ [])
      ∷ quiet
      ∷ [])
    ≡ some (ok (codes "ok"))
unfolding source_rcon run on_data on_packets on_packet encode_rcon decode_rcon decode_from
answer_of_list = refl

on_packets-accepted_example :
    any (accepts request) (record { id = 1; kind = 2; body = [] } ∷ []) ≡ true
unfolding on_packets on_packet encode_rcon
on_packets-accepted_example =
    on_packets-accepted request (after_auth auth) signed_in
      (record { id = 1; kind = 2; body = [] } ∷ []) refl refl refl
