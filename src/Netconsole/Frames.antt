-- ===== src/Netconsole/Frames.antt =====
-- internal/netconsole/netconsole.go: what is framed is read back, however the network cuts it.
use ludock.Common.{
  take-length, ℕ, zero, suc, false, List, [], ◌∷◌, ◌++◌, ◌+◌, ◌^◌, ◌≤◌, ◌<◌, ◌||◌, ◌≡◌, refl, sym,
  ap, ◌∙◌, arith, Bytes, ltb, leb, length, drop, ok, err, Bool-cases, inl, inr, length-append,
}
use ludock.Netconsole.Rcon.{
  max_packet, put_uint32, uint32, encode_rcon, RconPacket, packet_at, Decoded, before, decode_from,
  decode_rcon,
}
use ludock.Netconsole.Buffers.{
  uint32-put_uint32, add-sub, drop-append, length-drop, uint32-append, decode_rcon-turn,
  before_none, before-before, packet_at-append,
}

-- A whole packet at the front, whatever follows it.
whole :
    (a b : Bytes)
    → 4 ≤ length a
    → 10 ≤ uint32 a
    → uint32 a ≤ max_packet
    → uint32 a + 4 ≤ length a
    → decode_rcon (a ++ b)
      ≡ before (packet_at (uint32 a) a ∷ []) (decode_rcon (drop (uint32 a + 4) a ++ b))
whole a b four least most full =
    let long = length-append a b in
    let size = uint32-append a b four in
    let n = uint32 a in
    let four' : ltb (length (a ++ b)) 4 ≡ false = ground (arith, long) in
    let valid : (leb (2 ^ 31) n || ltb n 10 || ltb max_packet n) ≡ false = ground arith in
    let full' : ltb (length (a ++ b)) (n + 4) ≡ false = ground (arith, long) in
    decode_rcon-turn (a ++ b)
    ∙ rw (size, four')
        (rw (valid, full', packet_at-append n a b least full)
          (ap (λ l. before (packet_at n a ∷ []) (decode_rcon l)) (drop-append (n + 4) a b full)))

kept_all :
    (a b rest : Bytes) (packets : List RconPacket)
    → ◌≡◌ {A = Decoded} (ok ([], a)) (ok (packets, rest))
    → decode_rcon (a ++ b) ≡ before packets (decode_rcon (rest ++ b))
kept_all a b rest packets h =
    let none_read : [] ≡ packets = cc in
    let same : a ≡ rest = cc in rw (← none_read, ← same) (sym (before_none (decode_rcon (a ++ b))))

before-eq-ok :
    (ps packets : List RconPacket) (d : Decoded) (rest : Bytes)
    → before ps d ≡ ok (packets, rest)
    → (more : List RconPacket) × (d ≡ ok (more, rest)) × (packets ≡ ps ++ more)
before-eq-ok ps packets (ok (more, left)) rest h =
    (more, ap (λ l. ok (more, l)) (ground arith), ground arith)
before-eq-ok ps packets (err e) rest h = cc

ltb-false : (a b : ℕ) → ltb a b ≡ false → b ≤ a
ltb-false a b h = ground arith

append_from :
    (fuel : ℕ) (a b rest : Bytes) (packets : List RconPacket)
    → decode_from fuel a ≡ ok (packets, rest)
    → length a ≤ fuel
    → decode_rcon (a ++ b) ≡ before packets (decode_rcon (rest ++ b))
unfolding decode_from
append_from zero a b rest packets h k = kept_all a b rest packets h
append_from (suc fuel) a b rest packets h k =
    let n = uint32 a in
    let left = drop (n + 4) a in
    elim (Bool-cases (ltb (length a) 4)) [
      | inl few ↦ kept_all a b rest packets (ground arith)
      | inr four ↦ elim (Bool-cases (leb (2 ^ 31) n || ltb n 10 || ltb max_packet n)) [
        | inl invalid ↦ absurd (ground arith)
        | inr valid ↦ elim (Bool-cases (ltb (length a) (n + 4))) [
          | inl partial ↦ kept_all a b rest packets (ground arith)
          | inr full ↦
              let turned : before (packet_at n a ∷ []) (decode_from fuel left)
                  ≡ ok (packets, rest) =
                ground arith in
              let (more, read, all) =
                before-eq-ok (packet_at n a ∷ []) packets (decode_from fuel left) rest turned in
              whole a b (ground arith) (ground arith) (ground arith) (ground arith)
              ∙ ap (before (packet_at n a ∷ [])) (
                  append_from fuel left b rest more read
                    (omega (arith, k, length-drop (n + 4) a, ltb-false (length a) 4 four)))
              ∙ sym (before-before (packet_at n a ∷ []) more (decode_rcon (rest ++ b)))
              ∙ ap (λ l. before l (decode_rcon (rest ++ b))) (sym all)
        ]
      ]
    ]

-- Cutting the stream anywhere loses nothing: the packets of a buffer and what follows it are those
-- of the buffer, and then those of what it leaves over with what follows.
pub decode_rcon-append :
    (a b rest : Bytes) (packets : List RconPacket)
    → decode_rcon a ≡ ok (packets, rest)
    → decode_rcon (a ++ b) ≡ before packets (decode_rcon (rest ++ b))
unfolding decode_rcon
decode_rcon-append a b rest packets h = append_from (length a) a b rest packets h (omega arith)

abbrev frame_of : ℕ → ℕ → Bytes → Bytes
frame_of id kind body =
    put_uint32 (length body + 10) ++ put_uint32 id ++ put_uint32 kind ++ body ++ 0 ∷ 0 ∷ []

drop-all {ℓ} : {A : Type ℓ} (n : ℕ) (xs : List A) → length xs ≤ n → drop n xs ≡ []
drop-all zero [] h = refl
drop-all zero (x ∷ xs) h = absurd (omega (arith, h))
drop-all (suc n) [] h = refl
drop-all (suc n) (x ∷ xs) h = drop-all n xs (omega (arith, h))

packet_at-frame_of :
    (id kind : ℕ) (body : Bytes)
    → id < 2 ^ 32
    → kind < 2 ^ 32
    → packet_at (length body + 10) (frame_of id kind body)
      ≡ record { id = id; kind = kind; body = body }
packet_at-frame_of id kind body hi hk =
    rw
      (
        uint32-put_uint32 id (put_uint32 kind ++ body ++ 0 ∷ 0 ∷ []) hi,
        uint32-put_uint32 kind (body ++ 0 ∷ 0 ∷ []) hk,
        add-sub (length body),
        take-length body (0 ∷ 0 ∷ []),
      )
      refl

-- A frame is read back as the packet that it was made from, whatever follows it.
pub decode_rcon-encode_rcon :
    (id kind : ℕ) (body frame more : Bytes)
    → id < 2 ^ 32
    → kind < 2 ^ 32
    → encode_rcon id kind body ≡ ok frame
    → decode_rcon (frame ++ more)
      ≡ before (record { id = id; kind = kind; body = body } ∷ []) (decode_rcon more)
unfolding encode_rcon
decode_rcon-encode_rcon id kind body frame more hi hk h =
    let n = length body + 10 in
    let small : length body + 10 ≤ max_packet = ground arith in
    let framed : frame ≡ frame_of id kind body = ground arith in
    let long : length (frame_of id kind body) ≡ n + 4 =
      omega (arith, length-append body (0 ∷ 0 ∷ [])) in
    let size : uint32 (frame_of id kind body) ≡ n =
      uint32-put_uint32 n (put_uint32 id ++ put_uint32 kind ++ body ++ 0 ∷ 0 ∷ [])
        (omega (arith, small)) in
    let F = frame_of id kind body in
    let p : RconPacket = record { id = id; kind = kind; body = body } in
    rw framed (
      whole F more (omega (arith, long)) (omega (arith, size)) (omega (arith, size, small))
        (omega (arith, size, long))
      ∙ ap (λ m. before (packet_at m F ∷ []) (decode_rcon (drop (m + 4) F ++ more))) size
      ∙ ap (λ q. before (q ∷ []) (decode_rcon (drop (n + 4) F ++ more)))
          (packet_at-frame_of id kind body hi hk)
      ∙ ap (λ l. before (p ∷ []) (decode_rcon (l ++ more)))
          (drop-all (n + 4) F (omega (arith, long))))
