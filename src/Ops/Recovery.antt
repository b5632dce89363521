-- ===== src/Ops/Recovery.antt =====
-- internal/ops/ops.go: what a start makes of the operations that were running.
use ludock.Common.{
  ℕ, String, Bool, true, false, not, Option, none, some, List, [], ◌∷◌, ◌≡◌, refl, sym, ◌∙◌, arith,
  any, find, select, ◌==◌, ◌&&◌, ◌||◌, string_eq, ==_refl, ==_flip, Bool-cases, inl, inr, option_in,
}
use ludock.Database.{
  update_where, any-update_where, any-update_where_gone, any-implies, find-update_where_other,
  any-select, any-select_missing, any-none_implies,
}
use ludock.Ops.Job.{Json, Row, Store, interrupted, has_id, is_running}
use ludock.Ops.Queue.{set_finished}
use ludock.Ops.Runner.{Recovered}
use ludock.Ops.Restart.{recover_row, recover_rows, recover_interrupted}
use ludock.Ops.Places.{running_row}
use ludock.Ops.Table.{recover_row-finish}
use ludock.Ops.Ended.{has_status}

-- A row that is running and in no recovery to come.
abbrev leftover : List Row → Row → Bool
leftover rs r = is_running r.status && not (any (λ x. x.id == r.id) rs)

abbrev saves : String → Option String → String → ℕ → List Row → List Row
saves id result error now rows =
    update_where (has_id id) (set_finished interrupted result error now) rows

leftover-saves :
    (r : Row) (rs rows : List Row) (result : Option String) (error : String) (now : ℕ)
    → any (leftover (r ∷ rs)) rows ≡ false
    → any (leftover rs) (saves r.id result error now rows) ≡ false
leftover-saves r rs rows result error now h =
    any-update_where_gone (has_id r.id) (leftover (r ∷ rs)) (leftover rs)
      (set_finished interrupted result error now) rows (λ x k. refl)
      (λ x k l. rw (==_flip x.id r.id k) l) h

||-false : (b : Bool) → (b || false) ≡ b
||-false true = refl
||-false false = refl

interrupted-own :
    (id : String) (rows : List Row) (result : Option String) (error : String) (now : ℕ)
    → any (has_status id interrupted) (saves id result error now rows)
      ≡ (any (has_status id interrupted) rows || any (has_id id) rows)
interrupted-own id [] result error now = refl
interrupted-own id (x ∷ rows) result error now =
    ground (arith, interrupted-own id rows result error now)

interrupted-saves :
    (id key : String) (rows : List Row) (result : Option String) (error : String) (now : ℕ)
    → any (has_status id interrupted) (saves key result error now rows)
      ≡ (any (has_status id interrupted) rows || (key == id && any (has_id id) rows))
interrupted-saves id key rows result error now = elim (Bool-cases (key == id)) [
  | inl same ↦
      rw same (rw ((string_eq.beq_iff key id).0 same) (interrupted-own id rows result error now))
  | inr other ↦ rw other (
      any-update_where (has_id key) (has_status id interrupted)
        (set_finished interrupted result error now) rows
        (λ x k. rw ((string_eq.beq_iff x.id key).0 k) (rw other refl))
      ∙ sym (||-false _))
]

module _ {Recovery : Type 0} (json : Json Recovery) (outcome : Row → Recovered) (now : ℕ) where
  abbrev next : List Row → Store → Option Store → Store × Bool
  next rs store none = (store, false)
  next rs store (some saved) = recover_rows json outcome now rs saved

  recover_rows-none_running :
      (rs : List Row) (store : Store)
      → any (leftover rs) store.operations ≡ false
      → (recover_rows json outcome now rs store).1 ≡ true
      → any (λ r. is_running r.status) (recover_rows json outcome now rs store).0.operations ≡ false
  unfolding recover_rows
  recover_rows-none_running [] store h = λ done.
      any-none_implies (leftover []) (λ r. is_running r.status) store.operations
        (λ r k. ground arith) h
  recover_rows-none_running (r ∷ rs) store h =
      option_in
        (λ o.
          (next rs store o).1 ≡ true
          → any (λ r. is_running r.status) (next rs store o).0.operations ≡ false)
        (recover_row json (outcome r) r now store) (λ done. cc)
        (λ saved e.
          let (result, error, written) = recover_row-finish json (outcome r) r now store saved e in
          recover_rows-none_running rs saved
            (rw written (leftover-saves r rs store.operations result error now h)))

  recover_rows-interrupted :
      (id : String) (rs : List Row) (store : Store)
      → (recover_rows json outcome now rs store).1 ≡ true
      → any (has_status id interrupted) (recover_rows json outcome now rs store).0.operations ≡ (
          any (has_status id interrupted) store.operations
          || (any (has_id id) rs && any (has_id id) store.operations))
  unfolding recover_rows
  recover_rows-interrupted id [] store = λ done. sym (||-false _)
  recover_rows-interrupted id (r ∷ rs) store =
      option_in
        (λ o.
          (next rs store o).1 ≡ true
          → any (has_status id interrupted) (next rs store o).0.operations ≡ (
              any (has_status id interrupted) store.operations
              || ((r.id == id || any (has_id id) rs) && any (has_id id) store.operations)))
        (recover_row json (outcome r) r now store) (λ done. cc)
        (λ saved e done.
          let (result, error, written) = recover_row-finish json (outcome r) r now store saved e in
          let marked = interrupted-saves id r.id store.operations result error now in
          let listed =
            any-update_where (has_id r.id) (has_id id) (set_finished interrupted result error now)
              store.operations (λ x k. refl) in
          let rest = recover_rows-interrupted id rs saved done in
          rw rest (rw written (rw marked (rw listed (ground arith)))))

  recover_rows-other :
      (id : String) (rs : List Row) (store : Store)
      → any (has_id id) rs ≡ false
      → find (has_id id) (recover_rows json outcome now rs store).0.operations
        ≡ find (has_id id) store.operations
  unfolding recover_rows
  recover_rows-other id [] store h = refl
  recover_rows-other id (r ∷ rs) store h =
      option_in
        (λ o. find (has_id id) (next rs store o).0.operations ≡ find (has_id id) store.operations)
        (recover_row json (outcome r) r now store) refl
        (λ saved e.
          let (result, error, written) = recover_row-finish json (outcome r) r now store saved e in
          let other : (r.id == id) ≡ false = ground arith in
          recover_rows-other id rs saved (ground arith)
          ∙ rw written (
              find-update_where_other (has_id r.id) (has_id id)
                (set_finished interrupted result error now) store.operations
                (λ x k. rw ((string_eq.beq_iff x.id r.id).0 k) other) (λ x. refl)))

  -- When the recovery of a start is done, no operation is running; those that were are interrupted,
  -- and no other became it.
  pub recover_interrupted-done :
      (store : Store) (id : String)
      → (recover_interrupted json outcome now store).1 ≡ true
      → (any (λ r. is_running r.status) (recover_interrupted json outcome now store).0.operations
          ≡ false)
        × (any (has_status id interrupted) (recover_interrupted json outcome now store).0.operations
            ≡ (any (has_status id interrupted) store.operations
                || any (running_row id) store.operations))
  unfolding recover_interrupted
  recover_interrupted-done store id done =
      let rows = store.operations in
      let found = any-select (λ r. is_running r.status) (has_id id) rows in
      let listed = any-implies (running_row id) (has_id id) rows (λ r h. ground arith) in
      let marked =
        recover_rows-interrupted id (select (λ r. is_running r.status) rows) store done in
      (
        recover_rows-none_running (select (λ r. is_running r.status) rows) store
            (any-select_missing (λ r. is_running r.status) (λ x y. y.id == x.id) rows
              (λ r. ==_refl r.id))
            done,
        marked ∙ rw found (ground arith),
      )

  -- Done or cut off, it leaves every operation alone that was not running.
  pub recover_interrupted-other :
      (store : Store) (id : String)
      → any (running_row id) store.operations ≡ false
      → find (has_id id) (recover_interrupted json outcome now store).0.operations
        ≡ find (has_id id) store.operations
  unfolding recover_interrupted
  recover_interrupted-other store id h =
      recover_rows-other id (select (λ r. is_running r.status) store.operations) store
        (any-select (λ r. is_running r.status) (has_id id) store.operations ∙ h)
