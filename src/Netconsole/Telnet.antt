-- ===== src/Netconsole/Telnet.antt =====
-- internal/netconsole/netconsole.go: the decoder that takes Telnet commands out of a stream.
use ludock.Common.{
  ℕ, Bool, true, List, [], ◌∷◌, ◌++◌, ◌&&◌, ◌≡◌, refl, sym, ap, ◌∙◌, arith, Bytes, nat_beq, leb,
  if◌then◌else◌, all, append_assoc,
}

-- `state` and, in `option`, the `command` that state 2 reads; a state keeps no older command, since
-- only state 2 looks at it.
pub data State : Type 0 where
  plain escaped negotiation subnegotiation_end : State
  option : ℕ → State

pub record Decoded : Type 0 where
  pub state : State
  pub output : Bytes
  pub replies : Bytes

abbrev moved : State → Decoded
moved state = record { state = state; output = []; replies = [] }

abbrev printed : ℕ → Decoded
printed b = record { state = plain; output = b ∷ []; replies = [] }

-- The body of the loop, on one byte.
unfoldable pub decode_byte : State → ℕ → Decoded
decode_byte plain b = if nat_beq b 255 then moved escaped else printed b
decode_byte escaped b =
    if nat_beq b 255
    then printed b
    else if leb 251 b && leb b 254
    then moved (option b)
    else if nat_beq b 250
    then moved negotiation
    else moved plain
decode_byte (option command) b = record {
  state = plain;
  output = [];
  replies = 255 ∷ (if leb command 252 then 254 else 252) ∷ b ∷ [];
}
decode_byte negotiation b = if nat_beq b 255 then moved subnegotiation_end else moved negotiation
decode_byte subnegotiation_end b = if nat_beq b 240 then moved plain else moved negotiation

abbrev pub then_decoded : Decoded → Decoded → Decoded
then_decoded first more = record {
  state = more.state;
  output = first.output ++ more.output;
  replies = first.replies ++ more.replies;
}

unfoldable pub decode : State → Bytes → Decoded
decode state [] = moved state
decode state (b ∷ chunk) = let d = decode_byte state b in then_decoded d (decode d.state chunk)

then_decoded-then_decoded :
    (a b c : Decoded) → then_decoded (then_decoded a b) c ≡ then_decoded a (then_decoded b c)
then_decoded-then_decoded a b c =
    rw (append_assoc a.output b.output c.output, append_assoc a.replies b.replies c.replies) refl

-- How the chunks of a stream are cut makes no difference: a chunk and then the next decode, with
-- the state carried over, to the text and the replies of both in one.
pub decode-append :
    (state : State) (a b : Bytes)
    → decode state (a ++ b) ≡ then_decoded (decode state a) (decode (decode state a).state b)
unfolding decode
decode-append state [] b = refl
decode-append state (x ∷ a) b =
    let d = decode_byte state x in
    let rest = decode d.state a in
    let later = decode rest.state b in
    ap (then_decoded d) (decode-append d.state a b) ∙ sym (then_decoded-then_decoded d rest later)

-- Text as a Telnet peer sends it, each byte 255 doubled.
abbrev pub escape_byte : ℕ → Bytes
escape_byte b = if nat_beq b 255 then 255 ∷ 255 ∷ [] else b ∷ []

abbrev pub escape_text : Bytes → Bytes
escape_text [] = []
escape_text (b ∷ text) = escape_byte b ++ escape_text text

-- A command of option negotiation: WILL, WONT, DO or DONT, which refuse to be turned on.
abbrev pub refusal : ℕ → ℕ → Bytes
refusal command subject = 255 ∷ (if leb command 252 then 254 else 252) ∷ subject ∷ []

-- What a peer sends: text, a negotiation of an option, or a subnegotiation; in text and in
-- the content of a subnegotiation each byte 255 is doubled.
pub data Item : Type 0 where
  text : Bytes → Item
  negotiate : ℕ → ℕ → Item
  subnegotiate : Bytes → Item

abbrev pub sent : Item → Bytes
sent (text t) = escape_text t
sent (negotiate command subject) = 255 ∷ command ∷ subject ∷ []
sent (subnegotiate content) = 255 ∷ 250 ∷ escape_text content ++ 255 ∷ 240 ∷ []

abbrev pub is_item : Item → Bool
is_item (text t) = true
is_item (negotiate command subject) = leb 251 command && leb command 254
is_item (subnegotiate content) = true

abbrev pub shown : Item → Bytes
shown (text t) = t
shown (negotiate command subject) = []
shown (subnegotiate content) = []

abbrev pub answered : Item → Bytes
answered (text t) = []
answered (negotiate command subject) = refusal command subject
answered (subnegotiate content) = []

abbrev pub sent_all : List Item → Bytes
sent_all [] = []
sent_all (item ∷ items) = sent item ++ sent_all items

abbrev pub shown_all : List Item → Bytes
shown_all [] = []
shown_all (item ∷ items) = shown item ++ shown_all items

abbrev pub answered_all : List Item → Bytes
answered_all [] = []
answered_all (item ∷ items) = answered item ++ answered_all items

decode-escape_text :
    (t : Bytes) → decode plain (escape_text t) ≡ record { state = plain; output = t; replies = [] }
unfolding decode decode_byte
decode-escape_text [] = refl
decode-escape_text (b ∷ t) = ground (arith, decode-escape_text t)

decode-content :
    (content : Bytes) → decode negotiation (escape_text content ++ 255 ∷ 240 ∷ []) ≡ moved plain
unfolding decode decode_byte
decode-content [] = refl
decode-content (b ∷ content) = ground (arith, decode-content content)

decode-item :
    (item : Item)
    → is_item item ≡ true
    → decode plain (sent item)
      ≡ record { state = plain; output = shown item; replies = answered item }
unfolding decode decode_byte
decode-item (text t) h = decode-escape_text t
decode-item (negotiate command subject) h = ground arith
decode-item (subnegotiate content) h = rw (decode-content content) refl

-- A stream of text, negotiations by WILL, WONT, DO or DONT and subnegotiations, each byte 255 of text
-- and of the content of a subnegotiation doubled, decodes to its text alone, every negotiation answered by
-- the refusal of its option and nothing else answered.
pub decode-sent_all :
    (items : List Item)
    → all is_item items ≡ true
    → decode plain (sent_all items)
      ≡ record { state = plain; output = shown_all items; replies = answered_all items }
unfolding decode
decode-sent_all [] h = refl
decode-sent_all (item ∷ items) h =
    decode-append plain (sent item) (sent_all items)
    ∙ rw (decode-item item (ground arith)) (rw (decode-sent_all items (ground arith)) refl)
