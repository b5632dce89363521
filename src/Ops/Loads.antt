-- ===== src/Ops/Loads.antt =====
-- internal/ops/ops.go: the goroutines, the claims and the loads agree, in each change of them.
use ludock.Common.{
  ℕ, String, Bool, true, false, not, some, List, [], ◌∷◌, ◌≡◌, refl, sym, subst, ◌∙◌, ◌≤◌, ◌+◌, ◌-◌,
  arith, any, find, contains, contains-select, ◌==◌, string_eq, Bool-cases, inl, inr, if◌then◌else◌,
}
use ludock.Database.{
  update_where, delete_where, count_where, any-update_where, count-update_where, count-any,
  count-delete_where_key, count-delete_where_le, any-delete_where, any-delete_where_back,
  count-cons_fresh,
}
use ludock.Ops.Job.{Row, has_id}
use ludock.Ops.Runner.{
  World, Task, Stage, starting, Lane, lifecycle_lane, data_lane, lane_beq, at, is_returned, runs,
  set_stage, without,
}
use ludock.Ops.Turns.{set_row}

abbrev pub in_lane : Lane → Task → Bool
in_lane lane t = lane_beq t.lane lane

-- A goroutine for each job at most, its job claimed, and the loads as the lanes' goroutines.
pub record Sound (claimed : List String) (lifecycle others : ℕ) (tasks : List Task) : Type 0 where
  pub single : (id : String) → count_where (runs id) tasks ≤ 1
  pub kept : (id : String) → any (runs id) tasks ≡ true → contains claimed id ≡ true
  pub lifecycle_counted : lifecycle ≡ count_where (in_lane lifecycle_lane) tasks
  pub data_counted : others ≡ count_where (in_lane data_lane) tasks
  pub lifecycle_bound : lifecycle ≤ 4
  pub data_bound : others ≤ 1

abbrev pub SoundWorld : World → Type 0
SoundWorld w = Sound w.claimed w.lifecycle_load w.data_load w.tasks

-- A goroutine that moves on changes nothing of it.
pub Sound-moved :
    (p : Task → Bool) (f : Task → Task) {c : List String} {l d : ℕ} {tasks : List Task}
    → ((t : Task) (id : String) → p t ≡ true → runs id (f t) ≡ runs id t)
    → ((t : Task) → (f t).lane ≡ t.lane)
    → Sound c l d tasks
    → Sound c l d (update_where p f tasks)
Sound-moved p f {tasks = tasks} same lane h = record {
  single = λ id. rw (count-update_where p (runs id) f tasks (λ t k. same t id k)) (h.single id);
  kept = λ id k. h.kept id (rw (← any-update_where p (runs id) f tasks (λ t k. same t id k)) k);
  lifecycle_counted =
      h.lifecycle_counted
      ∙ sym (count-update_where p (in_lane lifecycle_lane) f tasks (λ t k. rw (lane t) refl));
  data_counted =
      h.data_counted
      ∙ sym (count-update_where p (in_lane data_lane) f tasks (λ t k. rw (lane t) refl));
  lifecycle_bound = h.lifecycle_bound;
  data_bound = h.data_bound;
}

pub Sound-set_stage :
    (id : String) (stage : Stage) {c : List String} {l d : ℕ} {tasks : List Task}
    → Sound c l d tasks
    → Sound c l d (set_stage id stage tasks)
Sound-set_stage id stage =
    Sound-moved (runs id) (λ t. record t { stage = stage }) (λ t i k. refl) (λ t. refl)

pub Sound-set_row :
    (id : String) (r : Row) {c : List String} {l d : ℕ} {tasks : List Task}
    → has_id id r ≡ true
    → Sound c l d tasks
    → Sound c l d (set_row id r tasks)
Sound-set_row id r here =
    Sound-moved (runs id) (λ t. record t { row = r; stage = starting })
      (λ t i k.
        rw ((string_eq.beq_iff r.id id).0 here) (rw ((string_eq.beq_iff t.row.id id).0 k) refl))
      (λ t. refl)

unclaimed :
    {c : List String} {l d : ℕ} {tasks : List Task} (id : String)
    → Sound c l d tasks
    → contains c id ≡ false
    → any (runs id) tasks ≡ false
unclaimed {tasks = tasks} id h free = elim (Bool-cases (any (runs id) tasks)) [
  | inl busy_id ↦ let claimed = h.kept id busy_id in cc
  | inr none_runs ↦ none_runs
]

single-add :
    {c : List String} {l d : ℕ} {tasks : List Task} (t : Task) (id : String)
    → Sound c l d tasks
    → contains c t.row.id ≡ false
    → count_where (runs id) (t ∷ tasks) ≤ 1
single-add {tasks = tasks} t id h free = elim (Bool-cases (t.row.id == id)) [
  | inl same ↦ count-cons_fresh (runs id) t tasks (
      count-any _ tasks (rw (← (string_eq.beq_iff t.row.id id).0 same) (unclaimed t.row.id h free)))
  | inr other ↦ rw other (h.single id)
]

kept-add :
    {c : List String} {l d : ℕ} {tasks : List Task} (t : Task) (id : String)
    → Sound c l d tasks
    → any (runs id) (t ∷ tasks) ≡ true
    → contains (t.row.id ∷ c) id ≡ true
kept-add {tasks = tasks} t id h k = elim (Bool-cases (t.row.id == id)) [
  | inl same ↦ rw same refl
  | inr other ↦ rw other (h.kept id (ground arith))
]

abbrev pub share : Lane → Lane → ℕ
share lane other = if lane_beq lane other then 1 else 0

pub Sound-add :
    (lane : Lane) (r : Row) (stage : Stage) (c : List String) (l d : ℕ) (tasks : List Task)
    → contains c r.id ≡ false
    → l + share lane lifecycle_lane ≤ 4
    → d + share lane data_lane ≤ 1
    → Sound c l d tasks
    → Sound
        (r.id ∷ c)
        (l + share lane lifecycle_lane)
        (d + share lane data_lane)
        (record { row = r; lane = lane; stage = stage } ∷ tasks)
Sound-add lane r stage c l d tasks free room_l room_d h = record {
  single = λ id. single-add (record { row = r; lane = lane; stage = stage }) id h free;
  kept = λ id. kept-add (record { row = r; lane = lane; stage = stage }) id h;
  lifecycle_counted = counted-add lane lifecycle_lane r stage l tasks h.lifecycle_counted;
  data_counted = counted-add lane data_lane r stage d tasks h.data_counted;
  lifecycle_bound = room_l;
  data_bound = room_d;
}
  where
    counted-add :
        (lane other : Lane) (r : Row) (stage : Stage) (n : ℕ) (tasks : List Task)
        → n ≡ count_where (in_lane other) tasks
        → n + share lane other
          ≡ count_where (in_lane other) (record { row = r; lane = lane; stage = stage } ∷ tasks)
    counted-add lane other r stage n tasks e = elim (Bool-cases (lane_beq lane other)) [
      | inl same ↦ rw same (omega (arith, e))
      | inr differs ↦ rw differs (omega (arith, e))
    ]

without-other :
    (id other : String) (c : List String)
    → (other == id) ≡ false
    → contains c other ≡ true
    → contains (without id c) other ≡ true
without-other id other c e h = rw (contains-select (λ x. not (x == id)) c other) (rw e (rw h refl))

pub Sound-leave :
    (id : String) (t : Task) (c : List String) (l d : ℕ) (tasks : List Task)
    → find (at is_returned id) tasks ≡ some t
    → Sound c l d tasks
    → Sound
        (without id c)
        (l - share t.lane lifecycle_lane)
        (d - share t.lane data_lane)
        (delete_where (runs id) tasks)
Sound-leave id t c l d tasks found h =
    let counted : (lane : Lane)
        → count_where (in_lane lane) tasks
          ≡ count_where (in_lane lane) (delete_where (runs id) tasks) + share t.lane lane =
      λ lane.
        count-delete_where_key (runs id) (in_lane lane) (λ t. is_returned t.stage) tasks t
          (h.single id) found in
    let lifecycle = counted lifecycle_lane in
    let others = counted data_lane in
    let le : (i : String)
        → count_where (runs i) (delete_where (runs id) tasks) ≤ count_where (runs i) tasks =
      λ i. count-delete_where_le (runs id) (runs i) tasks in
    record {
      single = λ i. omega (arith, le i, h.single i);
      kept = λ i k. elim (Bool-cases (i == id)) [
        | inl same ↦
            let gone = any-delete_where (runs id) tasks in
            let there : any (runs id) (delete_where (runs id) tasks) ≡ true =
              subst (λ x. any (runs x) (delete_where (runs id) tasks) ≡ true)
                ((string_eq.beq_iff i id).0 same) k in
            cc (gone, there)
        | inr other ↦
            without-other id i c other (h.kept i (any-delete_where_back (runs id) (runs i) tasks k))
      ];
      lifecycle_counted = omega (arith, lifecycle, h.lifecycle_counted);
      data_counted = omega (arith, others, h.data_counted);
      lifecycle_bound = omega (arith, h.lifecycle_bound);
      data_bound = omega (arith, h.data_bound);
    }

pub empty_Sound : Sound [] 0 0 []
empty_Sound = record {
  single = λ id. omega arith;
  kept = λ id k. cc;
  lifecycle_counted = refl;
  data_counted = refl;
  lifecycle_bound = omega arith;
  data_bound = omega arith;
}
