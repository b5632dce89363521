-- ===== src/Accounts/OtherKeys.antt =====
-- internal/db/accounts.go: failures under other keys and pruning leave what a key is answered.
use text.Mathlib.TextEquality.{eq_iff}
use ludock.Common.{
  ℕ, ◌+◌, ◌≤◌, String, ◌≡◌, ◌≢◌, refl, ap, sym, ◌∙◌, Bool, true, none, some, List, arith, string_eq,
  if◌then◌else◌, leb, ltb, ◌&&◌, Bool-cases, inl, inr, all, Option, Option-cases,
}
use ludock.Database.{
  Attempt, Db, delete_where, find-delete_where, find-all, find-delete_where_key, unless_deleted,
  count_where,
}
use ludock.Accounts.Attempts.{
  LoginThrottle, no_throttle, has_key, lapsed, read_throttle, get_login_throttle, count_failure,
  prune_login_attempts,
}
use ludock.Accounts.Throttle.{throttle, row_of, find-save_attempt_ne}

-- What GetLoginThrottle answers depends on the key's row alone.
abbrev answer : ℕ → ℕ → Option Attempt → LoginThrottle
answer now window none = no_throttle
answer now window (some a) =
    if lapsed now window a
    then no_throttle
    else record { failures = a.failures; blocked_until = a.blocked_until }

read_throttle-eq-answer :
    (attempts : List Attempt) (key : String) (now window : ℕ) (o : Option Attempt)
    → (read_throttle attempts key now window o).0 ≡ answer now window o
read_throttle-eq-answer attempts key now window none = refl
read_throttle-eq-answer attempts key now window (some a) = ground arith

throttle-eq-answer :
    (db : Db) (key : String) (now window : ℕ)
    → throttle db key now window ≡ answer now window (row_of db key)
unfolding get_login_throttle
throttle-eq-answer db key now window =
    read_throttle-eq-answer db.login_attempts key now window (row_of db key)

row_of-count_failure_ne :
    (db : Db) (key other : String) (now window most block_ms : ℕ)
    → key ≢ other
    → row_of (count_failure db key now window most block_ms).1 other ≡ row_of db other
unfolding count_failure
row_of-count_failure_ne db key other now window most block_ms ne =
    elim (Option-cases (row_of db key)) [
      | inl new ↦ rw new (find-save_attempt_ne _ db.login_attempts other ne)
      | inr (a, old) ↦ rw old (elim (Bool-cases (lapsed now window a)) [
        | inl over ↦ rw over (
            find-save_attempt_ne _ (delete_where (has_key key) db.login_attempts) other ne
            ∙ find-delete_where (has_key key) (has_key other) db.login_attempts
                (λ x h. ground (arith, eq_iff x.attempt_key key, eq_iff x.attempt_key other)))
        | inr still ↦ rw still (find-save_attempt_ne _ db.login_attempts other ne)
      ])
    ]

-- A failure under one key leaves what every other key is answered, at every time.
pub throttle-count_failure_ne :
    (db : Db) (key other : String) (now later window most block_ms : ℕ)
    → key ≢ other
    → throttle (count_failure db key now window most block_ms).1 other later window
      ≡ throttle db other later window
throttle-count_failure_ne db key other now later window most block_ms ne =
    throttle-eq-answer (count_failure db key now window most block_ms).1 other later window
    ∙ ap (answer later window) (row_of-count_failure_ne db key other now window most block_ms ne)
    ∙ sym (throttle-eq-answer db other later window)

abbrev stale : ℕ → ℕ → Attempt → Bool
stale now window a = leb a.blocked_until now && ltb (a.updated_at + window) now

row_of-prune_login_attempts :
    (db : Db) (key : String) (now window : ℕ)
    → count_where (has_key key) db.login_attempts ≤ 1
    → row_of (prune_login_attempts db now window) key
      ≡ unless_deleted (stale now window) (row_of db key)
unfolding prune_login_attempts
row_of-prune_login_attempts db key now window unique =
    find-delete_where_key (stale now window) (has_key key) db.login_attempts unique

answer_pruned :
    (now window : ℕ) (o : Option Attempt)
    → ((a : Attempt) → o ≡ some a → leb a.window_started_at a.updated_at ≡ true)
    → answer now window (unless_deleted (stale now window) o) ≡ answer now window o
answer_pruned now window none sane = refl
answer_pruned now window (some a) sane = ground (arith, sane a refl)

-- Pruning is invisible: where keys are unique and no row was updated before its window began, what
-- GetLoginThrottle answers is the same after PruneLoginAttempts at the same time.
pub throttle-prune_login_attempts :
    (db : Db) (key : String) (now window : ℕ)
    → count_where (has_key key) db.login_attempts ≤ 1
    → all (λ a. leb a.window_started_at a.updated_at) db.login_attempts ≡ true
    → throttle (prune_login_attempts db now window) key now window ≡ throttle db key now window
throttle-prune_login_attempts db key now window unique sane =
    throttle-eq-answer (prune_login_attempts db now window) key now window
    ∙ ap (answer now window) (row_of-prune_login_attempts db key now window unique)
    ∙ answer_pruned now window (row_of db key) (λ a f.
      find-all (λ b. leb b.window_started_at b.updated_at) (has_key key) db.login_attempts a f sane)
    ∙ sym (throttle-eq-answer db key now window)
