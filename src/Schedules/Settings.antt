-- ===== src/Schedules/Settings.antt =====
-- internal/schedules/input.go: the settings of a schedule and their validation.
-- A number that JSON gives as negative is 0 among lead times and 7 among days, which are refused like
-- it. An absent list is `none`. Months and days of dates are checked by Zones.day_of_date.
use Prim.Native.String
use ludock.Common.{
  ℕ, ◌+◌, ◌*◌, ◌-◌, String, Bool, true, false, not, Option, none, some, List, [], ◌∷◌, ◌++◌, ◌&&◌,
  ◌==◌, string_eq, nat_eq, nat_beq, ltb, leb, if◌then◌else◌, contains, all, length, is_empty, codes,
  Bytes, Result, ok, err, invalid_request,
}
use ludock.Schedtime.Clock.{Kind, recurring, once, Input, Zones}
use ludock.Authz.{Capability}

-- `Input`.
pub record Settings : Type 0 where
  pub kind : String
  pub action : String
  pub announcements : Option (Option (List ℕ))
  pub create_backup : Bool
  pub enabled : Bool
  pub time : String
  pub timezone : String
  pub days : Option (List ℕ)
  pub date : String

abbrev is_digit : ℕ → Bool
is_digit c = leb b'0' c && leb c b'9'

abbrev two_digits : ℕ → ℕ → ℕ
two_digits a b = (a - b'0') * 10 + (b - b'0')

abbrev read_time : Bytes → Option ℕ
read_time (a ∷ b ∷ colon ∷ c ∷ d ∷ []) =
    if is_digit a
      && is_digit b
      && nat_beq colon 58
      && is_digit c
      && is_digit d
      && ltb (two_digits a b) 24
      && ltb (two_digits c d) 60
    then some (two_digits a b * 60 + two_digits c d)
    else none
read_time other = none

-- timePattern and parseClock, as minutes since midnight.
unfoldable pub clock_time : String → Option ℕ
clock_time time = read_time (codes time)

abbrev date_shape : Bytes → Bool
date_shape (a ∷ b ∷ c ∷ d ∷ dash ∷ e ∷ f ∷ dash' ∷ g ∷ h ∷ []) =
    all is_digit (a ∷ b ∷ c ∷ d ∷ e ∷ f ∷ g ∷ h ∷ []) && nat_beq dash b'-' && nat_beq dash' b'-'
date_shape other = false

-- datePattern of internal/schedtime
unfoldable pub is_date : String → Bool
is_date date = date_shape (codes date)

abbrev pub kind_of : String → Option Kind
kind_of kind =
    if kind == "recurring" then some recurring else if kind == "once" then some once else none

abbrev pub days_of : Option (List ℕ) → List ℕ
days_of none = []
days_of (some days) = days

-- Input.Clock, with its texts read.
unfoldable pub clock : Settings → Input
clock s = record {
  kind = kind_of s.kind;
  enabled = s.enabled;
  time = clock_time s.time;
  timezone = s.timezone;
  days = days_of s.days;
  date = if is_date s.date then some s.date else none;
}

abbrev pub actions : List String
actions = "start" ∷ "stop" ∷ "restart" ∷ "backup" ∷ []

abbrev default_lead_minutes : List ℕ
default_lead_minutes = 10 ∷ 5 ∷ 1 ∷ []

abbrev pub is_some {ℓ} : {A : Type ℓ} → Option A → Bool
is_some none = false
is_some (some a) = true

abbrev pub valid_days : Option (List ℕ) → Bool
valid_days days =
    not (is_empty (days_of days))
    && leb (length (days_of days)) 7
    && all (λ d. leb d 6) (days_of days)

abbrev pub valid_when : Zones → Settings → Bool
valid_when zones s =
    if s.kind == "recurring"
    then s.date == "" && valid_days s.days
    else s.kind == "once"
      && not (is_some s.days)
      && is_date s.date
      && is_some (zones.day_of_date s.date)

abbrev pub valid_leads : List ℕ → List ℕ → Bool
valid_leads seen [] = true
valid_leads seen (lead ∷ leads) =
    leb 1 lead && leb lead 60 && not (contains seen lead) && valid_leads (lead ∷ seen) leads

abbrev pub with_leads : Option (Option (List ℕ)) → Option (Option (List ℕ))
with_leads (some none) = some (some default_lead_minutes)
with_leads given = given

abbrev pub valid_announcements : String → Option (Option (List ℕ)) → Bool
valid_announcements action none = true
valid_announcements action (some none) = action == "restart"
valid_announcements action (some (some leads)) =
    action == "restart" && not (is_empty leads) && leb (length leads) 10 && valid_leads [] leads

abbrev pub valid_zone : Zones → String → Bool
valid_zone zones name =
    not (nat_beq (zones.timezone_bytes name) 0)
    && leb (zones.timezone_bytes name) 100
    && is_some (zones.offset_at name)

-- Input.Validate: the settings, with the lead times that are offered by default.
unfoldable pub validate : Zones → Settings → Result Settings
validate zones s =
    if contains actions s.action
      && is_some (clock_time s.time)
      && valid_zone zones s.timezone
      && valid_when zones s
      && not (s.create_backup && not (s.action == "restart"))
      && valid_announcements s.action s.announcements
    then ok (record s { announcements = with_leads s.announcements })
    else err invalid_request

-- Input.Capabilities: what the owner needs for a run.
unfoldable pub capabilities : Settings → List Capability
capabilities s =
    (if s.action == "backup" then "backups.create" else String.◌++◌ "server." s.action)
    ∷ (if s.create_backup then "backups.create" ∷ [] else [])

abbrev for_warnings : Option (Option (List ℕ)) → List Capability
for_warnings none = []
for_warnings (some leads) = "console.execute" ∷ []

-- Input.EditCapabilities
unfoldable pub edit_capabilities : Settings → List Capability
unfolding capabilities
edit_capabilities s = capabilities s ++ for_warnings s.announcements
