-- ===== src/Netconsole/Authentication.antt =====
-- internal/netconsole/netconsole.go: what SourceRCON writes and when, and how little the network's
-- cuts matter to it.
use ludock.Common.{
  any, Bool, true, false, not, Option, none, some, List, [], ◌∷◌, ◌++◌, ◌≤◌, ◌≡◌, refl, sym, ap,
  ◌∙◌, arith, Bytes, length, Result, ok, err, ◌>>=◌, >>=-eq-ok, append_assoc, length-append, Error,
  inl, inr, Bool-cases, nat_beq, ◌&&◌, ◌||◌, ◌^◌, ◌-◌, subst,
}
use ludock.Netconsole.Rcon.{max_packet, encode_rcon, decode_rcon, RconPacket, before}
use ludock.Netconsole.Frames.{decode_rcon-append}
use ludock.Netconsole.SourceSession.{
  State, Request, after_auth, write_command, send_command, on_auth_packet, on_answer_packet,
  on_packet, on_packets, on_data,
}

-- The frame of the command, where one may be written.
pub record CommandFrame (q : Request) : Type 0 where
  pub frame : Bytes
  pub encoded : encode_rcon q.command_id 2 q.command ≡ ok frame
  pub allowed : q.refusal frame ≡ none

-- The command's frame is written once and only after the authentication, behind the password's; the
-- answer is empty before and never longer than a packet.
pub data Sound (q : Request) (auth : Bytes) (s : State) : Type 0 where
  unauthenticated :
      s.authenticated ≡ false → s.writes ≡ auth ∷ [] → s.response ≡ [] → Sound q auth s
  commanded :
      s.authenticated ≡ true
      → (c : CommandFrame q) → s.writes ≡ auth ∷ c.frame ∷ []
      → length s.response ≤ max_packet
      → Sound q auth s

write_command-ok :
    (s t : State) (frame : Bytes) (r : Option Error)
    → write_command s frame r ≡ ok t
    → (r ≡ none)
      × (record s { authenticated = true; command_sent = true; writes = s.writes ++ frame ∷ [] }
          ≡ t)
write_command-ok s t frame none h = (refl, ground arith)
write_command-ok s t frame (some e) h = cc

Sound-send_command :
    (q : Request) (auth : Bytes) (s t : State)
    → s.writes ≡ auth ∷ []
    → s.response ≡ []
    → send_command q s ≡ ok t
    → Sound q auth t
Sound-send_command q auth s t w r h =
    let (frame, encoded, written) = >>=-eq-ok (encode_rcon q.command_id 2 q.command) _ h in
    let (allowed, same) = write_command-ok s t frame (q.refusal frame) written in
    rw (← same) (
      commanded refl (record { frame = frame; encoded = encoded; allowed = allowed }) (rw w refl)
        (rw r (omega arith)))

Sound-on_packet :
    (q : Request) (auth : Bytes) (s t : State) (packet : RconPacket)
    → Sound q auth s
    → on_packet q s packet ≡ ok t
    → Sound q auth t
unfolding on_packet
Sound-on_packet q auth s t packet (unauthenticated a w r) h =
    let first : on_auth_packet q s packet ≡ ok t = ground arith in
    elim (Bool-cases (nat_beq packet.id (2 ^ 32 - 1))) [
      | inl failed ↦ absurd (ground arith)
      | inr other ↦ elim (Bool-cases (nat_beq packet.id q.auth_id && nat_beq packet.kind 2)) [
        | inl accepted ↦ Sound-send_command q auth s t w r (rw (other, accepted) at first)
        | inr ignored ↦
            let same : s ≡ t = ground arith in subst (Sound q auth) same (unauthenticated a w r)
      ]
    ]
Sound-on_packet q auth s t packet (commanded a c w b) h =
    let answer : on_answer_packet q s packet ≡ ok t = ground arith in
    let long = length-append s.response packet.body in
    elim (Bool-cases (not s.command_sent || not (nat_beq packet.id q.command_id))) [
      | inl ignored ↦
          let same : s ≡ t = ground arith in subst (Sound q auth) same (commanded a c w b)
      | inr mine ↦
          let same : record s { received = true; response = s.response ++ packet.body } ≡ t =
            ground arith in
          subst (Sound q auth) same (commanded a c w (ground arith))
    ]

Sound-on_packets :
    (q : Request) (auth : Bytes) (s t : State) (packets : List RconPacket)
    → Sound q auth s
    → on_packets q s packets ≡ ok t
    → Sound q auth t
unfolding on_packets
Sound-on_packets q auth s t [] sound h =
    let same : s ≡ t = ground arith in subst (Sound q auth) same sound
Sound-on_packets q auth s t (packet ∷ packets) sound h =
    let (u, one, rest) = >>=-eq-ok (on_packet q s packet) _ h in
    Sound-on_packets q auth u t packets (Sound-on_packet q auth s u packet sound one) rest

-- All that has arrived, in the chunks in which it came.
unfoldable pub on_chunks : Request → State → List Bytes → Result State
on_chunks q s [] = ok s
on_chunks q s (chunk ∷ chunks) = on_data q s chunk >>= λ t. on_chunks q t chunks

Sound-buffer :
    (q : Request) (auth : Bytes) (s : State) (rest : Bytes)
    → Sound q auth s
    → Sound q auth (record s { buffer = rest })
Sound-buffer q auth s rest (unauthenticated a w r) = unauthenticated a w r
Sound-buffer q auth s rest (commanded a c w b) = commanded a c w b

Sound-on_chunks_from :
    (q : Request) (auth : Bytes) (s t : State) (chunks : List Bytes)
    → Sound q auth s
    → on_chunks q s chunks ≡ ok t
    → Sound q auth t
unfolding on_chunks on_data
Sound-on_chunks_from q auth s t [] sound h =
    let same : s ≡ t = ground arith in subst (Sound q auth) same sound
Sound-on_chunks_from q auth s t (chunk ∷ chunks) sound h =
    let (u, one, rest) = >>=-eq-ok (on_data q s chunk) _ h in
    let ((packets, left), read, done) = >>=-eq-ok (decode_rcon (s.buffer ++ chunk)) _ one in
    Sound-on_chunks_from q auth u t chunks
      (Sound-on_packets q auth (record s { buffer = left }) u packets
        (Sound-buffer q auth s left sound) done)
      rest

-- Whatever arrives after the password's frame, in whatever chunks: before the authentication
-- nothing else was written and there is no answer, and after it just the command's frame, which
-- the control allowed, was written too, and the answer is no longer than a packet may be.
pub on_chunks-Sound :
    (q : Request) (auth : Bytes) (t : State) (chunks : List Bytes)
    → on_chunks q (after_auth auth) chunks ≡ ok t
    → Sound q auth t
on_chunks-Sound q auth t chunks h =
    Sound-on_chunks_from q auth (after_auth auth) t chunks (unauthenticated refl refl refl) h

bind_append :
    (q : Request) (r : Result State) (ps qs : List RconPacket)
    → ((s : State) → on_packets q s (ps ++ qs) ≡ (on_packets q s ps >>= λ t. on_packets q t qs))
    → (r >>= λ t. on_packets q t (ps ++ qs))
      ≡ ((r >>= λ t. on_packets q t ps) >>= λ t. on_packets q t qs)
bind_append q (err e) ps qs h = refl
bind_append q (ok t) ps qs h = h t

on_packets-append :
    (q : Request) (s : State) (ps qs : List RconPacket)
    → on_packets q s (ps ++ qs) ≡ (on_packets q s ps >>= λ t. on_packets q t qs)
unfolding on_packets
on_packets-append q s [] qs = refl
on_packets-append q s (p ∷ ps) qs =
    bind_append q (on_packet q s p) ps qs (λ t. on_packets-append q t ps qs)

send_command-buffer :
    (q : Request) (s u : State) (rest : Bytes)
    → send_command q s ≡ ok u
    → (u.buffer ≡ s.buffer)
      × (send_command q (record s { buffer = rest }) ≡ ok (record u { buffer = rest }))
send_command-buffer q s u rest h =
    let (frame, encoded, written) = >>=-eq-ok (encode_rcon q.command_id 2 q.command) _ h in
    let (allowed, same) = write_command-ok s u frame (q.refusal frame) written in
    (
      ap (λ (v : State). v.buffer) (sym same),
      rw encoded (rw allowed (ap (λ (v : State). ok (record v { buffer = rest })) same)),
    )

on_packet-buffer :
    (q : Request) (s u : State) (rest : Bytes) (p : RconPacket)
    → on_packet q s p ≡ ok u
    → (u.buffer ≡ s.buffer)
      × (on_packet q (record s { buffer = rest }) p ≡ ok (record u { buffer = rest }))
unfolding on_packet
on_packet-buffer q s u rest p h = ground (arith, send_command-buffer q s u rest)

on_packets-buffer :
    (q : Request) (s u : State) (rest : Bytes) (packets : List RconPacket)
    → on_packets q s packets ≡ ok u
    → (u.buffer ≡ s.buffer)
      × (on_packets q (record s { buffer = rest }) packets ≡ ok (record u { buffer = rest }))
unfolding on_packets
on_packets-buffer q s u rest [] h = ground arith
on_packets-buffer q s u rest (p ∷ packets) h =
    let (v, one, more) = >>=-eq-ok (on_packet q s p) _ h in
    let (same, first) = on_packet-buffer q s v rest p one in
    let (kept, others) = on_packets-buffer q v u rest packets more in (kept ∙ same, rw first others)

-- Two chunks that are taken well leave the state that they leave in one.
pub on_data-append :
    (q : Request) (s t u : State) (a b : Bytes)
    → on_data q s a ≡ ok t
    → on_data q t b ≡ ok u
    → on_data q s (a ++ b) ≡ ok u
unfolding on_data
on_data-append q s t u a b h k =
    let ((ps, left), read, one) = >>=-eq-ok (decode_rcon (s.buffer ++ a)) _ h in
    let ((qs, last), more, two) = >>=-eq-ok (decode_rcon (t.buffer ++ b)) _ k in
    let (kept, first) = on_packets-buffer q (record s { buffer = left }) t last ps one in
    let whole : decode_rcon (s.buffer ++ (a ++ b)) ≡ ok (ps ++ qs, last) =
      ap decode_rcon (sym (append_assoc s.buffer a b))
      ∙ decode_rcon-append (s.buffer ++ a) b left ps read
      ∙ ap (before ps) (ap (λ l. decode_rcon (l ++ b)) (sym kept) ∙ more) in
    rw whole (on_packets-append q (record s { buffer = last }) ps qs ∙ rw first two)

-- The answer that the authentication waits for.
abbrev pub accepts : Request → RconPacket → Bool
accepts q packet =
    not (nat_beq packet.id (2 ^ 32 - 1)) && nat_beq packet.id q.auth_id && nat_beq packet.kind 2

on_packet-accepted :
    (q : Request) (s t : State) (packet : RconPacket)
    → s.authenticated ≡ false
    → t.authenticated ≡ true
    → on_packet q s packet ≡ ok t
    → accepts q packet ≡ true
unfolding on_packet
on_packet-accepted q s t packet before_it after_it h = ground arith

-- A session is authenticated only by a packet with the id of its authentication and the type of an
-- answer to it, among those that have arrived.
pub on_packets-accepted :
    (q : Request) (s t : State) (packets : List RconPacket)
    → s.authenticated ≡ false
    → t.authenticated ≡ true
    → on_packets q s packets ≡ ok t
    → any (accepts q) packets ≡ true
unfolding on_packets
on_packets-accepted q s t [] before_it after_it h = absurd (ground arith)
on_packets-accepted q s t (packet ∷ packets) before_it after_it h =
    let (u, one, rest) = >>=-eq-ok (on_packet q s packet) _ h in
    elim (Bool-cases u.authenticated) [
      | inl now ↦ ground (arith, on_packet-accepted q s u packet before_it now one)
      | inr later ↦ ground (arith, on_packets-accepted q u t packets later after_it rest)
    ]
