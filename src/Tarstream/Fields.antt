-- ===== src/Tarstream/Fields.antt =====
-- internal/tarstream/tarstream.go: the number and text fields of a header.
use ludock.Common.{
  ℕ, zero, suc, ◌+◌, ◌-◌, ◌*◌, ◌/◌, ◌%◌, Bool, not, [], ◌∷◌, ◌++◌, ◌&&◌, ◌||◌, Bytes, nat_eq,
  nat_beq, leb, ltb, if◌then◌else◌, length, all, Result, ok, err, ◌>>=◌, invalid_archive, is_empty,
}
use ludock.Tarstream.Numerals.{format, value}
use ludock.Tarstream.Text.{utf8_valid, trim_space}

-- 1<<53 - 1
abbrev pub max_integer : ℕ
max_integer = 9007199254740991

abbrev pub before_nul : Bytes → Bytes
before_nul [] = []
before_nul (b ∷ field) = if nat_beq b 0 then [] else b ∷ before_nul field

-- textField
unfoldable pub text_field : Bytes → Result Bytes
text_field field =
    if utf8_valid (before_nul field) then ok (before_nul field) else err invalid_archive

abbrev pub base_256 : ℕ → Bytes → Result ℕ
base_256 n [] = ok n
base_256 n (b ∷ field) =
    let rest = base_256 (n * 256 + b) field in
    if ltb (max_integer / 256) n then err invalid_archive else rest

abbrev pub is_octal : ℕ → Bool
is_octal c = leb b'0' c && leb c b'7'

abbrev pub at_most_max : ℕ → Result ℕ
at_most_max n = if ltb max_integer n then err invalid_archive else ok n

-- Blank is zero; ParseUint refuses only what is too great anyway.
abbrev pub octal : Bytes → Result ℕ
octal encoded =
    if is_empty encoded
    then ok 0
    else if all is_octal encoded
    then at_most_max (value 8 0 encoded)
    else err invalid_archive

-- `integer`. No field is empty.
unfoldable pub integer : Bytes → Result ℕ
unfolding text_field trim_space
integer [] = err invalid_archive
integer (b ∷ field) =
    if ltb b 128
    then (text_field (b ∷ field) >>= λ text. octal (trim_space text))
    else if nat_beq b 128
    then base_256 0 field >>= at_most_max
    else err invalid_archive

abbrev pub repeat : (times : ℕ) → (byte : ℕ) → Bytes
repeat zero b = []
repeat (suc n) b = b ∷ repeat n b

-- The last `places` bytes of `wide`, with what is left of it.
abbrev pub put_wide : (places wide : ℕ) → Bytes → Bytes × ℕ
put_wide zero wide out = (out, wide)
put_wide (suc places) wide out = put_wide places (wide / 256) (wide % 256 ∷ out)

abbrev pub wide_field : Bytes × ℕ → Result Bytes
wide_field (bytes, wide) = if nat_beq wide 0 then ok (128 ∷ bytes) else err invalid_archive

-- `number` of rawHeader: the bytes of a field of zeros into which a value is written.
unfoldable pub number : (n : ℕ) → (places : ℕ) → Result Bytes
unfolding format
number n places =
    if ltb max_integer n
    then err invalid_archive
    else if ltb (length (format 8 n)) places
    then ok (repeat (places - 1 - length (format 8 n)) b'0' ++ format 8 n ++ 0 ∷ [])
    else wide_field (put_wide (places - 1) n [])

-- `text` of rawHeader: the bytes of such a field into which a text is written.
unfoldable pub text : Bytes → (places : ℕ) → Result Bytes
text t places =
    if ltb places (length t) || not (all (λ c. not (nat_beq c 0)) t)
    then err invalid_archive
    else ok (t ++ repeat (places - length t) 0)
