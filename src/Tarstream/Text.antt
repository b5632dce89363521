-- ===== src/Tarstream/Text.antt =====
-- unicode/utf8.Valid and strings.TrimSpace, as internal/tarstream/tarstream.go calls them.
use ludock.Common.{
  ℕ, zero, suc, ◌<◌, Bool, true, false, Option, none, some, [], ◌∷◌, ◌≡◌, refl, ap, ◌∙◌, arith,
  Bytes, nat_eq, nat_beq, leb, ltb, if◌then◌else◌, ◌&&◌, ◌||◌, All, contains,
}

-- After a first byte: the range of the next byte, and how many follow.
abbrev pub lead : ℕ → Option (ℕ × ℕ × ℕ)
lead a =
    if ltb a 0x80
    then some (0x80, 0xBF, 0)
    else if leb 0xC2 a && leb a 0xDF
    then some (0x80, 0xBF, 1)
    else if nat_beq a 0xE0
    then some (0xA0, 0xBF, 2)
    else if nat_beq a 0xED
    then some (0x80, 0x9F, 2)
    else if leb 0xE1 a && leb a 0xEF
    then some (0x80, 0xBF, 2)
    else if nat_beq a 0xF0
    then some (0x90, 0xBF, 3)
    else if leb 0xF1 a && leb a 0xF3
    then some (0x80, 0xBF, 3)
    else if nat_beq a 0xF4
    then some (0x80, 0x8F, 3)
    else none

-- `left` more bytes of a character, the next one in a range.
unfoldable pub valid_from : (lo hi left : ℕ) → Bytes → Bool
valid_from lo hi zero [] = true
valid_from lo hi (suc left) [] = false
valid_from lo hi zero (a ∷ s) = elim (lead a) [
  | none ↦ false
  | some (lo', hi', left) ↦ valid_from lo' hi' left s
]
valid_from lo hi (suc left) (a ∷ s) =
    let rest = valid_from 0x80 0xBF left s in leb lo a && leb a hi && rest

-- utf8.Valid
unfoldable pub utf8_valid : Bytes → Bool
unfolding valid_from
utf8_valid s = valid_from 0x80 0xBF 0 s

abbrev is_blank_byte : ℕ → Bool
is_blank_byte a = (leb 9 a && leb a 13) || nat_beq a b' '

abbrev wide_blank : ℕ → ℕ → ℕ → Bool
wide_blank a b c =
    nat_beq a 0xE1 && nat_beq b 0x9A && nat_beq c 0x80
    || nat_beq a 0xE2
      && nat_beq b 0x80
      && (leb 0x80 c && leb c 0x8A || contains {A = ℕ} (0xA8 ∷ 0xA9 ∷ 0xAF ∷ []) c)
    || nat_beq a 0xE2 && nat_beq b 0x81 && nat_beq c 0x9F
    || nat_beq a 0xE3 && nat_beq b 0x80 && nat_beq c 0x80

-- The bytes of the white space that a text starts with: one character, or none.
abbrev pub blank_width : Bytes → ℕ
blank_width [] = 0
blank_width (a ∷ []) = if is_blank_byte a then 1 else 0
blank_width (a ∷ b ∷ s) =
    if is_blank_byte a
    then 1
    else if nat_beq a 0xC2 && (nat_beq b 0x85 || nat_beq b 0xA0)
    then 2
    else elim s [ [] ↦ 0 | c ∷ _ ↦ if wide_blank a b c then 3 else 0 ]

abbrev pub trim_left : (skip : ℕ) → Bytes → Bytes
trim_left skip [] = []
trim_left (suc skip) (a ∷ s) = trim_left skip s
trim_left zero (a ∷ s) = elim (blank_width (a ∷ s)) [ zero ↦ a ∷ s | suc more ↦ trim_left more s ]

abbrev pub is_blank : (skip : ℕ) → Bytes → Bool
is_blank skip [] = true
is_blank (suc skip) (a ∷ s) = is_blank skip s
is_blank zero (a ∷ s) = elim (blank_width (a ∷ s)) [ zero ↦ false | suc more ↦ is_blank more s ]

abbrev pub trim_right : Bytes → Bytes
trim_right [] = []
trim_right (a ∷ s) = if is_blank 0 (a ∷ s) then [] else a ∷ trim_right s

-- strings.TrimSpace of a valid text
unfoldable pub trim_space : Bytes → Bytes
trim_space s = trim_right (trim_left 0 s)

-- Printing ASCII but the space.
abbrev pub IsGraphic : ℕ → Type 0
IsGraphic a = (b' ' < a) × (a < 0x80)

pub utf8_valid-ascii : (s : Bytes) → All (λ a. a < 0x80) s → utf8_valid s ≡ true
unfolding utf8_valid
utf8_valid-ascii [] h = refl
utf8_valid-ascii (a ∷ s) h = ground (arith, h, utf8_valid-ascii s h.1)

blank_width-IsGraphic : (a : ℕ) (s : Bytes) → IsGraphic a → blank_width (a ∷ s) ≡ 0
blank_width-IsGraphic a [] h = ground arith
blank_width-IsGraphic a (b ∷ []) h = ground arith
blank_width-IsGraphic a (b ∷ c ∷ s) h = ground arith

trim_right-IsGraphic : (s : Bytes) → All IsGraphic s → trim_right s ≡ s
trim_right-IsGraphic [] h = refl
trim_right-IsGraphic (a ∷ s) h =
    ground (arith, blank_width-IsGraphic a s h.0, trim_right-IsGraphic s h.1)

pub trim_space-IsGraphic : (s : Bytes) → All IsGraphic s → trim_space s ≡ s
unfolding trim_space
trim_space-IsGraphic [] h = refl
trim_space-IsGraphic (a ∷ s) h =
    let kept : trim_left 0 (a ∷ s) ≡ a ∷ s = ground (arith, blank_width-IsGraphic a s h.0) in
    ap trim_right kept ∙ trim_right-IsGraphic (a ∷ s) h
