-- ===== src/Observation.antt =====
-- internal/identity/identity.go: what Ludock observes of a container, the identity that survives its
-- recreation, and the material of its binding.
-- Texts that the code walks are bytes. Observations come from encoding/json, so they are UTF-8.
use ludock.Common.{
  ℕ, ◌+◌, ◌-◌, ◌/◌, ◌%◌, String, Bool, true, false, not, Option, none, some, List, [], ◌∷◌, ◌++◌,
  map, ◌&&◌, ◌||◌, ltb, leb, nat_beq, ◌==◌, string_eq, bytes_eq, nat_eq, if◌then◌else◌, all, select,
  Result, ok, err, Bytes, codes, length, is_empty, invalid_observation, contains,
}
use ludock.Paths.{clean}

pub record ComposeIdentity : Type 0 where
  pub project : Bytes
  pub service : Bytes
  pub container_number : Bytes

pub record Mount : Type 0 where
  pub kind : Bytes
  pub source : Bytes
  pub destination : Bytes
  pub writable : Bool
  pub name : Bytes

-- `configuration` is a map, its keys sorted as encoding/json writes them.
pub record Observation : Type 0 where
  pub container_id : Bytes
  pub name : Bytes
  pub display_name : String
  pub game_type : String
  pub compose : Option ComposeIdentity
  pub mounts : List Mount
  pub game_configuration : List (String × String)

abbrev is_digit : ℕ → Bool
is_digit c = leb b'0' c && leb c b'9'

abbrev is_letter : ℕ → Bool
is_letter c = leb b'a' c && leb c b'z' || leb b'A' c && leb c b'Z'

-- ValidContainerID
abbrev is_reference_tail : ℕ → Bool
is_reference_tail c =
    is_digit c || is_letter c || nat_beq c b'_' || nat_beq c b'.' || nat_beq c b'-'

unfoldable pub valid_container_id : Bytes → Bool
valid_container_id [] = false
valid_container_id (c ∷ rest) =
    leb (length rest) 127 && (is_digit c || is_letter c) && all is_reference_tail rest

-- ValidID
abbrev is_hex : ℕ → Bool
is_hex c = is_digit c || leb b'a' c && leb c b'f' || leb b'A' c && leb c b'F'

abbrev at_dash : ℕ → Bool
at_dash i = contains {A = ℕ} (8 ∷ 13 ∷ 18 ∷ 23 ∷ []) i

valid_from : ℕ → Bytes → Bool
valid_from i [] = true
valid_from i (c ∷ rest) =
    (if at_dash i then nat_beq c b'-' else is_hex c) && valid_from (i + 1) rest

unfoldable pub valid_id : Bytes → Bool
unfolding valid_from
valid_id value = nat_beq (length value) 36 && valid_from 0 value

-- `textutil.Length` of UTF-8: a unit for each character, and one more outside the basic plane.
unfoldable pub utf16_length : Bytes → ℕ
utf16_length [] = 0
utf16_length (b ∷ rest) =
    (if ltb b 128 then 1 else if ltb b 192 then 0 else if ltb b 240 then 1 else 2)
    + utf16_length rest

unfoldable pub valid_identity_part : Bytes → Bool
unfolding utf16_length
valid_identity_part value =
    not (is_empty value)
    && leb (utf16_length value) 512
    && all (λ c. not (ltb c 32 || nat_beq c 127)) value

-- `^[1-9][0-9]*$`
unfoldable pub is_replica : Bytes → Bool
is_replica [] = false
is_replica (c ∷ rest) = leb b'1' c && leb c b'9' && all is_digit rest

-- `url.QueryEscape`
abbrev hex_digit : ℕ → ℕ
hex_digit n = if ltb n 10 then n + b'0' else n - 10 + b'A'

abbrev is_unreserved : ℕ → Bool
is_unreserved c =
    is_digit c
    || is_letter c
    || nat_beq c b'-'
    || nat_beq c b'_'
    || nat_beq c b'.'
    || nat_beq c b'~'

abbrev escape_byte : ℕ → Bytes → Bytes
escape_byte c rest =
    if is_unreserved c
    then c ∷ rest
    else if nat_beq c b' '
    then b'+' ∷ rest
    else b'%' ∷ hex_digit (c / 16) ∷ hex_digit (c % 16) ∷ rest

unfoldable pub escape : Bytes → Bytes
escape [] = []
escape (c ∷ rest) = escape_byte c (escape rest)

abbrev trim_slash : Bytes → Bytes
trim_slash [] = []
trim_slash (c ∷ rest) = if nat_beq c b'/' then rest else c ∷ rest

abbrev colon : ℕ
colon = b':'

abbrev identity_key : Observation → Option ComposeIdentity → Result Bytes
identity_key o none = ok (codes "standalone:" ++ escape (trim_slash o.name))
identity_key o (some c) =
    if valid_identity_part c.project
      && valid_identity_part c.service
      && is_replica c.container_number
    then ok (
        codes "compose:"
        ++ (escape c.project ++ colon ∷ (escape c.service ++ colon ∷ c.container_number)))
    else err invalid_observation

unfoldable pub external_identity : Observation → Result Bytes
external_identity o =
    if valid_identity_part o.container_id && valid_identity_part o.name
    then identity_key o o.compose
    else err invalid_observation

-- BindingDigest: the mounts that count, as they are written, sorted. The digest of the material
-- (encoding/json, SHA-256 and the key of the installation) is a parameter of the store.
pub record MountKey : Type 0 where
  pub kind : Bytes
  pub source : Bytes
  pub destination : Bytes

pub record Material : Type 0 where
  pub game_type : String
  pub mounts : List MountKey
  pub configuration : List (String × String)

abbrev pub mount_key : Mount → MountKey
mount_key m = record {
  kind = m.kind;
  source = if m.kind == codes "volume" && not (is_empty m.name) then m.name else clean m.source;
  destination = clean m.destination;
}

-- `cmp.Compare` of two texts, before the answer `rest` of the next field.
unfoldable pub bytes_le : Bytes → Bytes → Bool → Bool
bytes_le [] [] rest = rest
bytes_le [] (y ∷ ys) rest = true
bytes_le (x ∷ xs) [] rest = false
bytes_le (x ∷ xs) (y ∷ ys) rest =
    let same = bytes_le xs ys rest in if ltb x y then true else if ltb y x then false else same

unfoldable pub mount_le : MountKey → MountKey → Bool
unfolding bytes_le
mount_le a b =
    bytes_le a.kind b.kind (bytes_le a.source b.source (bytes_le a.destination b.destination true))

unfoldable pub insert_mount : MountKey → List MountKey → List MountKey
insert_mount m [] = m ∷ []
insert_mount m (n ∷ ns) =
    let later = n ∷ insert_mount m ns in if mount_le m n then m ∷ n ∷ ns else later

unfoldable pub sort_mounts : List MountKey → List MountKey
unfolding insert_mount
sort_mounts [] = []
sort_mounts (m ∷ ms) = insert_mount m (sort_mounts ms)

abbrev pub is_writable : Mount → Bool
is_writable m = m.writable

unfoldable pub binding_material : Observation → Material
unfolding sort_mounts
binding_material o = record {
  game_type = o.game_type;
  mounts = sort_mounts (map mount_key (select is_writable o.mounts));
  configuration = o.game_configuration;
}
