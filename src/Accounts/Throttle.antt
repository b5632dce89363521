-- ===== src/Accounts/Throttle.antt =====
-- internal/db/accounts.go: the throttle counts every failure of a window and then blocks.
use native.Mathlib.Nat.{add-zero}
use text.Mathlib.TextEquality.{eq_iff}
use text.Mathlib.TextPositions.{eq_refl}
use ludock.Common.{
  ℕ, suc, ◌+◌, ◌≤◌, ◌<◌, String, ◌≡◌, ◌≢◌, refl, ap, ◌∙◌, none, some, List, [], ◌∷◌, arith,
  string_eq, any, find, All, length, if◌then◌else◌, nat_beq, leb, find-holds, Bool-cases, inl, inr,
  Option, Option-cases,
}
use ludock.Database.{
  Attempt, Db, update_where, delete_where, find-update_where, find-delete_where-none, find-any,
  find-none-any,
}
use ludock.Accounts.Attempts.{
  LoginThrottle, has_key, lapsed, get_login_throttle, save_attempt, overwrite, count_failure,
}

-- What GetLoginThrottle answers.
abbrev pub throttle : Db → String → ℕ → ℕ → LoginThrottle
throttle db key now window = (get_login_throttle db key now window).0

abbrev block_for : ℕ → ℕ → ℕ
block_for window block_ms = if nat_beq block_ms 0 then window else block_ms

abbrev pub row_of : Db → String → Option Attempt
row_of db key = find (has_key key) db.login_attempts

abbrev merged : Attempt → Option Attempt → Attempt
merged row none = row
merged row (some a) = overwrite row a

find-save_attempt :
    (row : Attempt) (attempts : List Attempt)
    → find (has_key row.attempt_key) (save_attempt row attempts)
      ≡ some (merged row (find (has_key row.attempt_key) attempts))
unfolding save_attempt
find-save_attempt row attempts = elim (Option-cases (find (has_key row.attempt_key) attempts)) [
  | inl new ↦
      rw new
        (rw (find-none-any (has_key row.attempt_key) attempts new) (rw (eq_refl row.attempt_key)))
  | inr (a, old) ↦ rw old (
      rw (find-any (has_key row.attempt_key) attempts old) (
        rw
          (find-update_where (has_key row.attempt_key) (has_key row.attempt_key) (overwrite row)
            attempts (λ x h. refl))
          (rw old (rw (find-holds (has_key row.attempt_key) attempts a old)))))
]

pub find-save_attempt_ne :
    (row : Attempt) (attempts : List Attempt) (key : String)
    → row.attempt_key ≢ key
    → find (has_key key) (save_attempt row attempts) ≡ find (has_key key) attempts
unfolding save_attempt
find-save_attempt_ne row attempts key ne =
    elim (Bool-cases (any (has_key row.attempt_key) attempts)) [
      | inl old ↦ rw old (kept attempts)
      | inr new ↦ rw new (ground (arith, eq_iff row.attempt_key key))
    ]
  where
    kept :
        (xs : List Attempt)
        → find (has_key key) (update_where (has_key row.attempt_key) (overwrite row) xs)
          ≡ find (has_key key) xs
    kept [] = refl
    kept (x ∷ xs) =
        ground (arith, kept xs, eq_iff x.attempt_key key, eq_iff x.attempt_key row.attempt_key)

-- The row that a failure leaves, from the row before it.
abbrev first_row : String → ℕ → ℕ → ℕ → ℕ → Attempt
first_row key now window most block_ms = record {
  attempt_key = key;
  failures = 1;
  window_started_at = now;
  blocked_until = if leb most 1 then now + block_for window block_ms else 0;
  updated_at = now;
}

abbrev next_row : Option Attempt → String → ℕ → ℕ → ℕ → ℕ → Attempt
next_row none key now window most block_ms = first_row key now window most block_ms
next_row (some a) key now window most block_ms =
    if lapsed now window a then first_row key now window most block_ms else record a {
      failures = a.failures + 1;
      blocked_until =
          if leb most (a.failures + 1) then now + block_for window block_ms else a.blocked_until;
      updated_at = now;
    }

saved :
    (row : Attempt) (attempts : List Attempt) {o : Option Attempt}
    → find (has_key row.attempt_key) attempts ≡ o
    → find (has_key row.attempt_key) (save_attempt row attempts) ≡ some (merged row o)
saved row attempts e = find-save_attempt row attempts ∙ ap (λ o. some (merged row o)) e

row_of-count_failure :
    (db : Db) (key : String) (now window most block_ms : ℕ)
    → row_of (count_failure db key now window most block_ms).1 key
      ≡ some (next_row (row_of db key) key now window most block_ms)
unfolding count_failure
row_of-count_failure db key now window most block_ms = elim (Option-cases (row_of db key)) [
  | inl new ↦ rw new (saved (first_row key now window most block_ms) db.login_attempts new)
  | inr (a, old) ↦ rw old (elim (Bool-cases (lapsed now window a)) [
    | inl over ↦ rw over (
        saved (first_row key now window most block_ms)
          (delete_where (has_key key) db.login_attempts)
          (find-delete_where-none (has_key key) (has_key key) db.login_attempts (λ x h. h)))
    | inr open_window ↦ rw open_window (
        saved
          (record {
            attempt_key = key;
            failures = a.failures + 1;
            window_started_at = a.window_started_at;
            blocked_until =
                if leb most (a.failures + 1)
                then now + block_for window block_ms
                else a.blocked_until;
            updated_at = now;
          })
          db.login_attempts old)
  ])
]

-- The failures at the given times, one after another.
abbrev pub fail_each : Db → String → ℕ → ℕ → ℕ → List ℕ → Db
fail_each db key window most block_ms [] = db
fail_each db key window most block_ms (t ∷ ts) =
    fail_each (count_failure db key t window most block_ms).1 key window most block_ms ts

-- `k` failures are counted, in the window that began at `start`.
record Counts (start k : ℕ) (o : Option Attempt) : Type 0 where
  row : Attempt
  stored : o ≡ some row
  counted : row.failures ≡ k
  began : row.window_started_at ≡ start

Counts-count_failure :
    (db : Db) (key : String) (start k now window most block_ms : ℕ)
    → now < start + window
    → Counts start k (row_of db key)
    → Counts start (k + 1) (row_of (count_failure db key now window most block_ms).1 key)
Counts-count_failure db key start k now window most block_ms early c = record {
  row = next_row (some c.row) key now window most block_ms;
  stored = row_of-count_failure db key now window most block_ms ∙ rw c.stored;
  counted = ground (arith, c.counted, c.began);
  began = ground (arith, c.counted, c.began);
}

Counts-fail_each :
    (db : Db) (key : String) (start k window most block_ms : ℕ) (ts : List ℕ)
    → All (λ t. t < start + window) ts
    → Counts start k (row_of db key)
    → Counts start (k + length ts) (row_of (fail_each db key window most block_ms ts) key)
Counts-fail_each db key start k window most block_ms [] early c = rw add-zero c
Counts-fail_each db key start k window most block_ms (t ∷ ts) early c =
    let later =
      Counts-fail_each (count_failure db key t window most block_ms).1 key start (k + 1) window most
        block_ms ts early.1
        (Counts-count_failure db key start k t window most block_ms early.0 c) in
    let e : k + suc (length ts) ≡ k + 1 + length ts = omega arith in rw e later

reported :
    (db : Db) (key : String) (start k now window most block_ms : ℕ)
    → now < start + window
    → Counts start k (row_of db key)
    → let result = (count_failure db key now window most block_ms).0 in
      (result.failures ≡ k + 1)
      × (most ≤ k + 1 → result.blocked_until ≡ now + block_for window block_ms)
unfolding count_failure
reported db key start k now window most block_ms early c =
    rw c.stored (ground (arith, c.counted, c.began))

-- Every failure within one window is counted, and the key is blocked from the `most`-th on: for a
-- key without a row, after a first failure at `start` and any others in its window, a failure at
-- `now` in the window reports their number, where that has reached `most`, and a block that ends
-- the block's length after `now`.
pub failures_block :
    (db : Db) (key : String) (start now window most block_ms : ℕ) (ts : List ℕ)
    → row_of db key ≡ none
    → All (λ t. t < start + window) ts
    → now < start + window
    → most ≤ length ts + 2
    → let result =
        (count_failure
          (fail_each db key window most block_ms (start ∷ ts))
          key
          now
          window
          most
          block_ms).0 in
      (result.failures ≡ length ts + 2) × (result.blocked_until ≡ now + block_for window block_ms)
failures_block db key start now window most block_ms ts new early in_window reached =
    let first : Counts start 1 (row_of (count_failure db key start window most block_ms).1 key) =
      record {
        row = first_row key start window most block_ms;
        stored = row_of-count_failure db key start window most block_ms ∙ rw new;
        counted = refl;
        began = refl;
      } in
    let e : length ts + 2 ≡ 1 + length ts + 1 = omega arith in
    let (counted, blocked) =
      reported (fail_each db key window most block_ms (start ∷ ts)) key start (1 + length ts) now
        window most block_ms in_window
        (Counts-fail_each _ key start 1 window most block_ms ts early first) in
    (rw e counted, blocked (omega (arith, reached)))
