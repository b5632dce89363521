-- ===== src/Examples/Availability.antt =====
-- The theorems on availability (internal/monitor/monitor.go) at concrete inputs.
use ludock.Common.{◌≡◌, ◌⊎◌, refl, String, true, false, Option, none, some, [], ◌∷◌, Bytes, codes}
use ludock.Database.{Server, active}
use ludock.Monitor.{
  Policy, PolicyInput, whole, Row, Tick, Container, Moment, check_server, transition, unchanged,
  check_outage, suppressed, parse_policy,
}
use ludock.Monitor.Alerts.{Raised, check_server-Raised}
use ludock.Monitor.Operations.{set_intentional_stop}
use ludock.Monitor.Suspension.{check_server-overtaken}

abbrev decode : String → Option PolicyInput
decode raw =
    some (record { enabled = some true; maintenance = none; grace_seconds = some (whole 60) })

abbrev encode : Policy → String
encode policy = "{}"

abbrev server : Server
server = record {
  id = "one";
  host_id = "local";
  external_identity = [];
  container_id = codes "c1";
  display_name = "srv";
  game_type = "generic";
  status = active;
  binding_revision = 1;
  binding_fingerprint = "f0";
  pending_fingerprint = "";
  pending_game_type = "";
  review_required = false;
  first_seen_at = 1;
  last_seen_at = 2;
}

abbrev row : Row
row = record {
  server_id = "one";
  policy = "{}";
  outage = some 1000;
  notified = false;
  suppressed = 0;
  intentional = false;
  last_state = "exited";
}

abbrev exited : Bytes → Option Container
exited id = some (record { state = "exited"; health = "" })

abbrev tick : Tick
tick = record { now = 70000; current = some exited; active = λ id. false; busy = λ id. false }

abbrev quiet : Moment
quiet = record { meanwhile = λ rows. rows; saves = true }

check_server-Raised_example :
    Raised decode tick server row
      (check_server decode tick quiet quiet server (some row) (row ∷ [])).0
unfolding check_server parse_policy suppressed check_outage transition unchanged
check_server-Raised_example = check_server-Raised decode tick quiet quiet server row (row ∷ []) refl

check_server-overtaken_example :
    let stop = set_intentional_stop encode "one" true in
    let result =
      check_server decode tick quiet
        (record { meanwhile = stop; saves = true })
        server
        (some row)
        (row ∷ []) in
    (result.1 ≡ []) × ((result.0 ≡ row ∷ []) ⊎ (result.0 ≡ stop (row ∷ [])))
check_server-overtaken_example =
    check_server-overtaken decode encode tick quiet true server row (row ∷ []) refl
