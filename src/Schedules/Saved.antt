-- ===== src/Schedules/Saved.antt =====
-- internal/schedules/input.go and internal/schedtime: what Validate accepts has a valid clock.
use ludock.Common.{
  ℕ, Bool, true, false, not, Option, none, some, ◌≡◌, refl, sym, ap, ◌∙◌, arith, string_eq,
  Bool-cases, inl, inr, if◌then◌else◌, ◌&&◌, ◌||◌, ◌==◌, ok, err, invalid_request, leb,
}
use ludock.Schedtime.Clock.{Zones, Offset, Input, both, valid_kind, epoch, valid_clock}
use ludock.Schedules.Settings.{
  Settings, validate, clock, clock_time, valid_zone, valid_when, with_leads, is_some,
}

valid_when-valid_kind :
    (zones : Zones) (s : Settings)
    → valid_when zones s ≡ true
    → valid_kind (clock s).kind (clock s) ≡ true
unfolding clock
valid_when-valid_kind zones s h = elim (Bool-cases (s.kind == "recurring")) [
  | inl weekly ↦ ground (arith, weekly, h)
  | inr not_weekly ↦ elim (Bool-cases (s.kind == "once")) [
    | inl single ↦ ground (arith, not_weekly, single, h)
    | inr unknown ↦ ground (arith, not_weekly, unknown, h)
  ]
]

guarded :
    {A : Type 0} (a b c d e f : Bool) (x : A) {y : A}
    → (if a && b && c && d && e && f then ok x else err invalid_request) ≡ ok y
    → (b ≡ true) × (c ≡ true) × (d ≡ true) × (x ≡ y)
guarded a b c d e f x h = ground arith

is_some-some : {A : Type 0} (o : Option A) → is_some o ≡ true → (a : A) × (o ≡ some a)
is_some-some none h = cc
is_some-some (some a) h = (a, refl)

valid_all :
    {A : Type 0} (a b c d e : Bool) (o : Option A)
    → a ≡ true
    → b ≡ false
    → c ≡ false
    → d ≡ false
    → e ≡ true
    → (if not a || b || c || d || not e then none else o) ≡ o
valid_all a b c d e o p q r s t = ground arith

clock_given :
    (zones : Zones) (i : Input) (now : ℕ) (zone : ℕ → Offset) (time : ℕ)
    → i.enabled ≡ true
    → leb epoch now ≡ true
    → valid_zone zones i.timezone ≡ true
    → valid_kind i.kind i ≡ true
    → zones.offset_at i.timezone ≡ some zone
    → i.time ≡ some time
    → valid_clock zones i now ≡ some (zone, time)
unfolding valid_clock
clock_given zones i now zone time on since zoned planned known read =
    let chosen : both (zones.offset_at i.timezone) i.time ≡ some (zone, time) =
      rw (known, read) refl in
    valid_all _ _ _ _ _ _ on (ground arith) (ground arith) (ground arith) planned ∙ chosen

validate-ok :
    (zones : Zones) (given s : Settings)
    → validate zones given ≡ ok s
    → (valid_zone zones given.timezone ≡ true)
      × (valid_when zones given ≡ true)
      × (is_some (clock_time given.time) ≡ true)
      × (s ≡ record given { announcements = with_leads given.announcements })
unfolding validate
validate-ok zones given s h =
    let (timed, zoned, planned, same) = guarded _ _ _ _ _ _ _ h in (zoned, planned, timed, sym same)

-- A saved schedule that is enabled always has its slots and runs: what Validate accepts, validClock
-- accepts too, at every time since the Unix epoch.
pub validate-valid_clock :
    (zones : Zones) (given s : Settings) (now : ℕ)
    → validate zones given ≡ ok s
    → s.enabled ≡ true
    → leb epoch now ≡ true
    → (zone : ℕ → Offset) × (time : ℕ) × (valid_clock zones (clock s) now ≡ some (zone, time))
unfolding clock
validate-valid_clock zones given s now h on since =
    let (zoned, planned, timed, same) = validate-ok zones given s h in
    let (zone, known) = is_some-some (zones.offset_at given.timezone) (ground (arith, zoned)) in
    let (time, read) = is_some-some (clock_time given.time) timed in
    (
      zone,
      time,
      ap (λ x. valid_clock zones (clock x) now) same
          ∙ clock_given zones (clock given) now zone time
              (ap (λ (x : Settings). x.enabled) (sym same) ∙ on) since zoned
              (valid_when-valid_kind zones given planned) known read,
    )
