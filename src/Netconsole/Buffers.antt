-- ===== src/Netconsole/Buffers.antt =====
-- internal/netconsole/netconsole.go: the buffer of the RCON loop, cut and joined.
use ludock.Common.{
  ℕ, zero, suc, List, [], ◌∷◌, ◌++◌, ◌+◌, ◌-◌, ◌^◌, ◌≤◌, ◌<◌, ◌≡◌, refl, sym, ap, ◌∙◌, arith, Bytes,
  length, take, drop, ok, err,
}
use mathlib.Core.List.{append_assoc}
use ludock.Netconsole.Rcon.{
  put_uint32, uint32, RconPacket, packet_at, Decoded, before, decode_turn, decode_from, decode_rcon,
}

pub uint32-put_uint32 : (n : ℕ) (rest : Bytes) → n < 2 ^ 32 → uint32 (put_uint32 n ++ rest) ≡ n
uint32-put_uint32 n rest h = omega arith

pub add-sub : (n : ℕ) → n + 10 - 10 ≡ n
add-sub n = omega arith

take-append {ℓ} :
    {A : Type ℓ} (n : ℕ) (xs ys : List A) → n ≤ length xs → take n (xs ++ ys) ≡ take n xs
take-append zero xs ys h = refl
take-append (suc n) [] ys h = absurd (omega (arith, h))
take-append (suc n) (x ∷ xs) ys h = ap (λ l. x ∷ l) (take-append n xs ys (omega (arith, h)))

pub drop-append {ℓ} :
    {A : Type ℓ} (n : ℕ) (xs ys : List A) → n ≤ length xs → drop n (xs ++ ys) ≡ drop n xs ++ ys
drop-append zero xs ys h = refl
drop-append (suc n) [] ys h = absurd (omega (arith, h))
drop-append (suc n) (x ∷ xs) ys h = drop-append n xs ys (omega (arith, h))

pub length-drop {ℓ} : {A : Type ℓ} (n : ℕ) (xs : List A) → length (drop n xs) ≡ length xs - n
length-drop zero xs = omega arith
length-drop (suc n) [] = omega arith
length-drop (suc n) (x ∷ xs) = omega (arith, length-drop n xs)

pub uint32-append :
    (buffer more : Bytes) → 4 ≤ length buffer → uint32 (buffer ++ more) ≡ uint32 buffer
uint32-append (a ∷ b ∷ c ∷ d ∷ rest) more h = refl
uint32-append [] more h = absurd (omega (arith, h))
uint32-append (a ∷ []) more h = absurd (omega (arith, h))
uint32-append (a ∷ b ∷ []) more h = absurd (omega (arith, h))
uint32-append (a ∷ b ∷ c ∷ []) more h = absurd (omega (arith, h))

no_bytes :
    (buffer : Bytes) (more : Decoded)
    → length buffer ≤ 0
    → decode_turn buffer more ≡ ok ([], buffer)
no_bytes [] more h = refl
no_bytes (b ∷ buffer) more h = absurd (omega (arith, h))

-- More turns than the buffer has bytes change nothing.
same_turns :
    (f g : ℕ) (buffer : Bytes)
    → length buffer ≤ f
    → length buffer ≤ g
    → decode_from f buffer ≡ decode_from g buffer
unfolding decode_from
same_turns zero zero buffer h k = refl
same_turns zero (suc g) buffer h k = sym (no_bytes buffer _ h)
same_turns (suc f) zero buffer h k = no_bytes buffer _ k
same_turns (suc f) (suc g) buffer h k =
    let rest = drop (uint32 buffer + 4) buffer in
    let shorter = length-drop (uint32 buffer + 4) buffer in
    ap (decode_turn buffer)
      (same_turns f g rest (omega (arith, h, shorter)) (omega (arith, k, shorter)))

pub decode_rcon-turn :
    (buffer : Bytes)
    → decode_rcon buffer ≡ decode_turn buffer (decode_rcon (drop (uint32 buffer + 4) buffer))
unfolding decode_rcon decode_from
decode_rcon-turn buffer =
    same_turns (length buffer) (suc (length buffer)) buffer (omega arith) (omega arith)
    ∙ ap (decode_turn buffer) (
        same_turns (length buffer) _ (drop (uint32 buffer + 4) buffer)
          (omega (arith, length-drop (uint32 buffer + 4) buffer)) (omega arith))

pub before_none : (d : Decoded) → before [] d ≡ d
before_none (ok (packets, rest)) = refl
before_none (err e) = refl

pub before-before :
    (ps qs : List RconPacket) (d : Decoded) → before (ps ++ qs) d ≡ before ps (before qs d)
before-before ps qs (ok (packets, rest)) = ap (λ l. ok (l, rest)) (append_assoc ps qs packets)
before-before ps qs (err e) = refl

pub packet_at-append :
    (size : ℕ) (a b : Bytes)
    → 10 ≤ size
    → size + 4 ≤ length a
    → packet_at size (a ++ b) ≡ packet_at size a
packet_at-append size a b h k =
    let l4 = length-drop 4 a in
    let l8 = length-drop 8 a in
    let l12 = length-drop 12 a in
    rw
      (
        drop-append 4 a b (omega (arith, h, k)),
        drop-append 8 a b (omega (arith, h, k)),
        drop-append 12 a b (omega (arith, h, k)),
      )
      (rw (
        uint32-append (drop 4 a) b (omega (arith, h, k, l4)),
        uint32-append (drop 8 a) b (omega (arith, h, k, l8)),
        take-append (size - 10) (drop 12 a) b (omega (arith, h, k, l12)),
      ))
