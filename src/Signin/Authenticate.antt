-- ===== src/Signin/Authenticate.antt =====
-- internal/auth/service.go: the state and the inputs of Login, and authenticate.
-- The texts' library, the hash of tokens and of passwords and the collation of user names are
-- parameters (Library); so is NeedsUpgrade, whose parsing of Argon2 strings is not modelled. What
-- the clock, the random numbers, PasswordWork and other requests do in between is an argument
-- (Turn). Each function returns the database, and the failures since the last pruning, changed.
use Prim.Native.String.{◌++◌}
use Prim.Native.Char.{code}
use ludock.Common.{
  ℕ, zero, suc, ◌+◌, String, Bool, true, false, not, Option, none, some, List, [], ◌∷◌, ◌&&◌, ◌||◌,
  ltb, leb, nat_beq, ◌==◌, string_eq, if◌then◌else◌, find, Result, ok, err,
}
use ludock.Database.{User, Db}
use ludock.Accounts.{SessionUser, find_user_by_id, upgrade_password_hash_if_unchanged}
use ludock.Accounts.Attempts.{get_login_throttle}

pub record Library : Type 0 where
  pub trim_space : String → String
  pub to_lower : String → String
  pub same_name : String → String → Bool
  pub hash_token : String → String
  pub hash_password : String → Result String
  pub verify : (password encoded : String) → Bool
  pub needs_upgrade : String → Bool

pub record Client : Type 0 where
  pub ip : String
  pub user_agent : String

pub record Principal : Type 0 where
  pub user : SessionUser
  pub token : String
  pub token_hash : String

-- The three readings of the clock, the fresh id and token, whether PasswordWork takes the work, and
-- what other requests write during it and before the session is stored.
pub record Turn : Type 0 where
  pub now : ℕ
  pub failed_at : ℕ
  pub created_at : ℕ
  pub session_id : String
  pub token : String
  pub admitted : Bool
  pub during : Db → Db
  pub after : Db → Db

pub record State : Type 0 where
  pub db : Db
  pub since_prune : ℕ

abbrev pub session_ttl : ℕ
session_ttl = 604_800_000

abbrev pub login_window : ℕ
login_window = 900_000

abbrev pub source : Client → String
source client = if client.ip == "" then "unknown" else client.ip

abbrev pub truncate_runes : String → ℕ → String
truncate_runes value zero = ""
truncate_runes String.[] (suc limit) = ""
truncate_runes (String.◌∷◌ c rest) (suc limit) = String.◌∷◌ c (truncate_runes rest limit)

-- textutil.Length
abbrev utf16_units : String → ℕ
utf16_units String.[] = 0
utf16_units (String.◌∷◌ c rest) = (if leb 65536 (code c) then 2 else 1) + utf16_units rest

-- `[a-zA-Z0-9._-]`
abbrev is_name_char : ℕ → Bool
is_name_char c =
    (leb 97 c && leb c 122)
    || (leb 65 c && leb c 90)
    || (leb 48 c && leb c 57)
    || nat_beq c 46
    || nat_beq c 95
    || nat_beq c 45

abbrev all_name_chars : String → Bool
all_name_chars String.[] = true
all_name_chars (String.◌∷◌ c rest) = is_name_char (code c) && all_name_chars rest

-- The trimmed name where it is valid; a name of three characters is not empty, as the pattern asks.
unfoldable pub valid_username : Library → String → Option String
valid_username lib username =
    let name = lib.trim_space username in
    if leb 3 (utf16_units name) && leb (utf16_units name) 32 && all_name_chars name
    then some name
    else none

unfoldable pub valid_password : String → Bool
valid_password password = leb 15 (utf16_units password) && leb (utf16_units password) 128

abbrev pub throttle_key : Library → String → String → String
throttle_key lib scope value = lib.hash_token (scope ++ ":" ++ value)

unfoldable pub too_many : Db → ℕ → List String → Bool × Db
too_many db now [] = (false, db)
too_many db now (key ∷ keys) =
    let (throttle, read) = get_login_throttle db key now login_window in
    let rest = too_many read now keys in
    if ltb now throttle.blocked_until then (true, read) else rest

abbrev pub session_user : User → SessionUser
session_user u = record { id = u.id; username = u.username; role = u.role }

-- An account and the hash that was verified for it; nothing where the credentials are wrong.
abbrev pub Verified : Type 0
Verified = Option (SessionUser × String)

-- The account is read again after the password work; a stronger hash is stored where it is wanted.
abbrev pub confirm : User → Option String → Option User → Db → Verified × Db
confirm r upgraded none db = (none, db)
confirm r none (some current) db =
    if current.disabled || not (current.password_hash == r.password_hash)
    then (none, db)
    else (some (session_user current, r.password_hash), db)
confirm r (some hash) (some current) db =
    if current.disabled || not (current.password_hash == r.password_hash) then (none, db) else (
      some (session_user current, hash),
      upgrade_password_hash_if_unchanged db current.id r.password_hash hash,
    )

abbrev pub confirmed : User → Result (Option String) → Db → Result Verified × Db
confirmed r (err e) db = (err e, db)
confirmed r (ok upgraded) db =
    let (verified, written) = confirm r upgraded (find_user_by_id db r.id) db in
    (ok verified, written)

abbrev pub no_account : Result String → Db → Result Verified × Db
no_account (err e) db = (err e, db)
no_account (ok hash) db = (ok none, db)

abbrev pub some_hash : Result String → Result (Option String)
some_hash (err e) = err e
some_hash (ok hash) = ok (some hash)

abbrev pub upgrade_of : Library → User → String → Result (Option String)
upgrade_of lib r password =
    if lib.needs_upgrade r.password_hash then some_hash (lib.hash_password password) else ok none

-- On the row that FindUserByUsername returns.
unfoldable pub check_password : Library → Turn → Db → String → Option User → Result Verified × Db
check_password lib turn db password none = no_account (lib.hash_password password) (turn.during db)
check_password lib turn db password (some r) =
    if r.disabled
    then no_account (lib.hash_password password) (turn.during db)
    else if lib.verify password r.password_hash
    then confirmed r (upgrade_of lib r password) (turn.during db)
    else (ok none, turn.during db)

unfoldable pub authenticate : Library → Turn → Db → String → String → Result Verified × Db
authenticate lib turn db username password =
    check_password lib turn db password (find (λ u. lib.same_name u.username username) db.users)
