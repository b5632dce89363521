-- ===== src/Examples/Schedtime.antt =====
-- The theorem on the next run (internal/schedtime/schedtime.go) at a concrete input.
use ludock.Common.{
  ℕ, ◌+◌, ◌*◌, ◌≡◌, refl, true, none, some, [], ◌∷◌, ltb, if◌then◌else◌, nat_eq, string_eq,
}
use ludock.Schedtime.Clock.{
  west, Input, Offset, Zones, minute, hour, day, local_clock, Slot, valid_clock, clock_slot,
  day_offsets, recurring, once,
}
use ludock.Schedtime.Next.{sort, one_time_at, one_time_run, run_on_day, run_within, next_run}
use ludock.Schedtime.Runs.{NextSlot, next_run-slot}

-- Clocks fall back from two to one on Sunday, day 14.
abbrev new_york : ℕ → Offset
new_york t = if ltb t (14 * day + 6 * hour) then west (4 * hour) else west (5 * hour)

abbrev zones : Zones
zones = record {
  offset_at = λ name. some new_york;
  timezone_bytes = λ name. 16;
  day_of_date = λ date. none;
}

-- Sundays at half past one.
abbrev sundays : Input
sundays = record {
  kind = some recurring;
  enabled = true;
  time = some 90;
  timezone = "America/New_York";
  days = 0 ∷ [];
  date = none;
}

abbrev last : Slot
last = record { day_number = 14; time = 90; timezone = "America/New_York" }

-- A minute before the repetition of half past one, which is not run a second time.
next_run-slot_example :
    NextSlot zones sundays
      (14 * day + 6 * hour + 29 * minute)
      (some last)
      (21 * day + 6 * hour + 30 * minute)
unfolding local_clock clock_slot valid_clock next_run run_within run_on_day day_offsets sort
next_run-slot_example =
    next_run-slot zones sundays (14 * day + 6 * hour + 29 * minute) (some last)
      (21 * day + 6 * hour + 30 * minute) refl

-- A date that falls into the gap of spring has no run.
abbrev denver : ℕ → Offset
denver t = if ltb t (14 * day + 9 * hour) then west (7 * hour) else west (6 * hour)

in_gap :
    one_time_run
      (record {
        offset_at = λ name. some denver;
        timezone_bytes = λ name. 14;
        day_of_date = λ date. some 14;
      })
      (record sundays { kind = some once; time = some 150; date = some "1970-01-04" })
    ≡ none
unfolding local_clock one_time_run one_time_at day_offsets sort
in_gap = refl

after_gap :
    one_time_run
      (record {
        offset_at = λ name. some denver;
        timezone_bytes = λ name. 14;
        day_of_date = λ date. some 14;
      })
      (record sundays { kind = some once; time = some 200; date = some "1970-01-04" })
    ≡ some (14 * day + 200 * minute + 6 * hour)
unfolding local_clock one_time_run one_time_at day_offsets sort
after_gap = refl
