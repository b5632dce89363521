-- ===== src/Netconsole/Rcon.antt =====
-- internal/netconsole/netconsole.go: the frames of Source RCON.
-- An int32 is its 32-bit word, so that -1 is 2 ^ 32 - 1.
use ludock.Common.{
  ℕ, zero, suc, List, [], ◌∷◌, ◌++◌, ◌+◌, ◌-◌, ◌*◌, ◌/◌, ◌%◌, ◌^◌, ◌||◌, Bytes, ltb, leb,
  if◌then◌else◌, length, take, drop, Result, ok, err, rcon_too_large, rcon_invalid,
}

-- `MaxBytes`, which is `maxPacket` too.
abbrev pub max_packet : ℕ
max_packet = 4194304

-- `binary.LittleEndian.PutUint32`
abbrev pub put_uint32 : ℕ → Bytes
put_uint32 n = n % 256 ∷ n / 256 % 256 ∷ n / 65536 % 256 ∷ n / 16777216 % 256 ∷ []

-- `binary.LittleEndian.Uint32` of the first four bytes; the source only reads where there are four.
abbrev pub uint32 : Bytes → ℕ
uint32 (a ∷ b ∷ c ∷ d ∷ rest) = a + 256 * b + 65536 * c + 16777216 * d
uint32 short = 0

unfoldable pub encode_rcon : ℕ → ℕ → Bytes → Result Bytes
encode_rcon id kind body =
    if ltb (max_packet - 10) (length body)
    then err rcon_too_large
    else ok
        (put_uint32 (length body + 10) ++ put_uint32 id ++ put_uint32 kind ++ body ++ 0 ∷ 0 ∷ [])

pub record RconPacket : Type 0 where
  pub id : ℕ
  pub kind : ℕ
  pub body : Bytes

abbrev pub packet_at : ℕ → Bytes → RconPacket
packet_at size buffer = record {
  id = uint32 (drop 4 buffer);
  kind = uint32 (drop 8 buffer);
  body = take (size - 10) (drop 12 buffer);
}

abbrev pub Decoded : Type 0
Decoded = Result (List RconPacket × Bytes)

abbrev pub before : List RconPacket → Decoded → Decoded
before packets (ok (more, rest)) = ok (packets ++ more, rest)
before packets (err e) = err e

-- One turn of the loop, on what is left of the buffer, where the rest of the loop gives `more`. A
-- size from 2 ^ 31 on is negative.
abbrev pub decode_turn : Bytes → Decoded → Decoded
decode_turn buffer more =
    let size = uint32 buffer in
    if ltb (length buffer) 4
    then ok ([], buffer)
    else if leb (2 ^ 31) size || ltb size 10 || ltb max_packet size
    then err rcon_invalid
    else if ltb (length buffer) (size + 4)
    then ok ([], buffer)
    else before (packet_at size buffer ∷ []) more

unfoldable pub decode_from : ℕ → Bytes → Decoded
decode_from zero buffer = ok ([], buffer)
decode_from (suc fuel) buffer =
    decode_turn buffer (decode_from fuel (drop (uint32 buffer + 4) buffer))

-- Every packet is longer than one byte, so the loop turns less often than the buffer has bytes.
unfoldable pub decode_rcon : Bytes → Decoded
decode_rcon buffer = decode_from (length buffer) buffer
