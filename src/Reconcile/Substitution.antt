-- ===== src/Reconcile/Substitution.antt =====
-- internal/identity/identity.go: a container with other material in the place of an accepted one.
use ludock.Common.{Option, true, Option, some, ◌≡◌, string_eq}
use ludock.Database.{Server, Db}
use ludock.Observation.{Observation}
use ludock.Reconcile.Changes.{row_of}

-- The row of `s` is there and needs review.
abbrev Suspended : Server → Db → Type 0
Suspended s db = (t : Server) × (row_of db s.id ≡ some t) × (t.review_required ≡ true)
