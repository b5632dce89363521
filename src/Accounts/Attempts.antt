-- ===== src/Accounts/Attempts.antt =====
-- internal/db/accounts.go: the sign-in throttle on its table of attempts.
use ludock.Common.{
  ℕ, ◌+◌, String, Bool, true, false, Option, none, some, List, ◌∷◌, ◌&&◌, ltb, leb, nat_beq, ◌==◌,
  string_eq, if◌then◌else◌, any, find,
}
use ludock.Database.{Attempt, Db, update_where, delete_where}

pub record LoginThrottle : Type 0 where
  pub failures : ℕ
  pub blocked_until : ℕ

abbrev pub no_throttle : LoginThrottle
no_throttle = record { failures = 0; blocked_until = 0 }

abbrev pub has_key : String → Attempt → Bool
has_key key a = a.attempt_key == key

-- `now - started >= windowMs` over signed numbers.
abbrev pub lapsed : ℕ → ℕ → Attempt → Bool
lapsed now window a = leb a.blocked_until now && leb (a.window_started_at + window) now

-- getThrottle inside a transaction: the throttle, the start of its window and whether a row is left.
abbrev pub read_throttle :
    List Attempt → String → ℕ → ℕ → Option Attempt → LoginThrottle × ℕ × Bool × List Attempt
read_throttle attempts key now window none = (no_throttle, 0, false, attempts)
read_throttle attempts key now window (some a) =
    if lapsed now window a then (no_throttle, 0, false, delete_where (has_key key) attempts) else (
      record { failures = a.failures; blocked_until = a.blocked_until },
      a.window_started_at,
      true,
      attempts,
    )

unfoldable pub get_throttle :
    List Attempt → String → ℕ → ℕ → LoginThrottle × ℕ × Bool × List Attempt
get_throttle attempts key now window =
    read_throttle attempts key now window (find (has_key key) attempts)

-- GetLoginThrottle, outside a transaction, with the row unchanged between its two statements.
unfoldable pub get_login_throttle : Db → String → ℕ → ℕ → LoginThrottle × Db
unfolding get_throttle
get_login_throttle db key now window =
    let (throttle, _, _, rest) = get_throttle db.login_attempts key now window in
    (throttle, record db { login_attempts = rest })

-- INSERT … ON CONFLICT(attempt_key) DO UPDATE, which keeps the stored window.
abbrev pub overwrite : Attempt → Attempt → Attempt
overwrite row a = record a {
  failures = row.failures;
  blocked_until = row.blocked_until;
  updated_at = row.updated_at;
}

unfoldable pub save_attempt : Attempt → List Attempt → List Attempt
save_attempt row attempts =
    if any (has_key row.attempt_key) attempts
    then update_where (has_key row.attempt_key) (overwrite row) attempts
    else row ∷ attempts

-- PruneLoginAttempts: `updated_at < now - windowMs` over signed numbers.
unfoldable pub prune_login_attempts : Db → ℕ → ℕ → Db
prune_login_attempts db now window = record db {
  login_attempts =
      delete_where (λ a. leb a.blocked_until now && ltb (a.updated_at + window) now)
        db.login_attempts;
}

abbrev pub login_prune_interval : ℕ
login_prune_interval = 200

-- The transaction of RecordLoginFailure; `block_ms = 0` stands for every value that is not positive.
unfoldable pub count_failure : Db → String → ℕ → ℕ → ℕ → ℕ → LoginThrottle × Db
unfolding get_throttle
count_failure db key now window max_failures block_ms =
    let block = if nat_beq block_ms 0 then window else block_ms in
    let (current, started, found, rest) = get_throttle db.login_attempts key now window in
    let failures = current.failures + 1 in
    let blocked = if leb max_failures failures then now + block else current.blocked_until in
    let row : Attempt = record {
      attempt_key = key;
      failures = failures;
      window_started_at = if found then started else now;
      blocked_until = blocked;
      updated_at = now;
    } in
    (
      record { failures = failures; blocked_until = blocked },
      record db { login_attempts = save_attempt row rest },
    )

-- RecordLoginFailure with the counter `failuresSincePrune` passed in and returned.
unfoldable pub record_login_failure : ℕ → Db → String → ℕ → ℕ → ℕ → ℕ → LoginThrottle × Db × ℕ
unfolding count_failure prune_login_attempts
record_login_failure since db key now window max_failures block_ms =
    let (result, db') = count_failure db key now window max_failures block_ms in
    if leb login_prune_interval (since + 1)
    then (result, prune_login_attempts db' now window, 0)
    else (result, db', since + 1)

unfoldable pub clear_login_throttle : Db → String → Db
clear_login_throttle db key = record db {
  login_attempts = delete_where (has_key key) db.login_attempts;
}
