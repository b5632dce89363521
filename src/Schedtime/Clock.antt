-- ===== src/Schedtime/Clock.antt =====
-- internal/schedtime/schedtime.go: the slots and the next runs of a schedule in its time zone.
-- Instants are milliseconds since Sunday, 21 December 1969, `epoch` before the Unix epoch, so that
-- the days around it are natural numbers; a day is its number since then. Go's time package is the
-- parameter Zones: the offset of a zone at an instant, and the dates that it reads and prints. A time
-- of day that timePattern matches is its minutes since midnight.
use ludock.Common.{
  ℕ, ◌+◌, ◌-◌, ◌*◌, ◌/◌, ◌%◌, String, Bool, true, false, not, Option, none, some, List, [], ◌∷◌,
  ◌++◌, ◌&&◌, ◌||◌, ◌==◌, string_eq, nat_eq, nat_beq, ltb, leb, if◌then◌else◌, contains, is_empty,
  all, length, map,
}

pub data Kind : Type 0 where
  recurring once : Kind

-- A text that names no kind, no time or no date is `none`.
pub record Input : Type 0 where
  pub kind : Option Kind
  pub enabled : Bool
  pub time : Option ℕ
  pub timezone : String
  pub days : List ℕ
  pub date : Option String

-- East or west of UTC.
pub data Offset : Type 0 where
  east west : ℕ → Offset

pub record Zones : Type 0 where
  pub offset_at : String → Option (ℕ → Offset)
  pub timezone_bytes : String → ℕ
  pub day_of_date : String → Option ℕ

abbrev pub minute : ℕ
minute = 60_000

abbrev pub hour : ℕ
hour = 3_600_000

abbrev pub day : ℕ
day = 86_400_000

abbrev pub grace : ℕ
grace = 300_000

abbrev pub epoch : ℕ
epoch = 11 * day

abbrev pub to_local : Offset → ℕ → ℕ
to_local (east n) t = t + n
to_local (west n) t = t - n

-- `wall - offset`, where it is no earlier than all that is looked at.
abbrev pub to_instant : Offset → ℕ → Option ℕ
to_instant (east n) wall = if leb n wall then some (wall - n) else none
to_instant (west n) wall = some (wall + n)

abbrev offset_beq : Offset → Offset → Bool
offset_beq (east a) (east b) = nat_beq a b
offset_beq (west a) (west b) = nat_beq a b
offset_beq (east a) (west b) = nat_beq a 0 && nat_beq b 0
offset_beq (west a) (east b) = nat_beq a 0 && nat_beq b 0

pub record Clock : Type 0 where
  pub day_number : ℕ
  pub time : ℕ
  pub minute_start : ℕ
  pub offset : Offset

unfoldable pub local_clock : (ℕ → Offset) → ℕ → Clock
local_clock zone now =
    let here = to_local (zone now) now in
    record {
      day_number = here / day;
      time = here % day / minute;
      minute_start = now - now % 1000 - (here / 1000) % 60 * 1000;
      offset = zone now;
    }

abbrev is_some {ℓ} : {A : Type ℓ} → Option A → Bool
is_some none = false
is_some (some a) = true

abbrev pub is_empty_text : Zones → String → Bool
is_empty_text zones name = nat_beq (zones.timezone_bytes name) 0

abbrev pub both {ℓ κ} : {A : Type ℓ} {B : Type κ} → Option A → Option B → Option (A × B)
both none b = none
both (some a) none = none
both (some a) (some b) = some (a, b)

-- A slot: the local minute with its zone, without an offset.
pub record Slot : Type 0 where
  pub day_number : ℕ
  pub time : ℕ
  pub timezone : String

abbrev pub slot_beq : Slot → Slot → Bool
slot_beq a b =
    nat_beq a.day_number b.day_number && nat_beq a.time b.time && a.timezone == b.timezone

abbrev pub is_slot : Slot → Option Slot → Bool
is_slot s none = false
is_slot s (some last) = slot_beq s last

-- What validClock asks of the kind.
abbrev pub valid_kind : Option Kind → Input → Bool
valid_kind none input = false
valid_kind (some once) input = is_some input.date
valid_kind (some recurring) input =
    not (is_empty input.days) && leb (length input.days) 7 && all (λ d. leb d 6) input.days

-- The zone and the minutes of the time.
unfoldable pub valid_clock : Zones → Input → ℕ → Option ((ℕ → Offset) × ℕ)
valid_clock zones input now =
    if not input.enabled
      || ltb now epoch
      || is_empty_text zones input.timezone
      || ltb 100 (zones.timezone_bytes input.timezone)
      || not (valid_kind input.kind input)
    then none
    else both (zones.offset_at input.timezone) input.time

unfoldable pub clock_slot : Input → ℕ → Clock → Option Slot
clock_slot input time c =
    if not (contains input.days (c.day_number % 7)) || not (nat_beq c.time time)
    then none
    else some (record { day_number = c.day_number; time = time; timezone = input.timezone })

-- The hours around a day at which dayOffsets looks, from a day before its midnight on.
abbrev sample_hours : List ℕ
sample_hours = 0 ∷ 12 ∷ 24 ∷ 36 ∷ 48 ∷ 60 ∷ 72 ∷ []

abbrev has_offset : List Offset → Offset → Bool
has_offset [] o = false
has_offset (x ∷ xs) o = offset_beq x o || has_offset xs o

abbrev distinct_offsets : List Offset → List Offset → List Offset
distinct_offsets [] found = found
distinct_offsets (o ∷ rest) found =
    distinct_offsets rest (if has_offset found o then found else found ++ o ∷ [])

unfoldable pub day_offsets : (ℕ → Offset) → ℕ → List Offset
day_offsets zone number =
    distinct_offsets (map (λ h. zone (number * day + h * hour - day)) sample_hours) []
