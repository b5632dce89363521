-- ===== src/Reconcile/Groups.antt =====
-- internal/identity/identity.go: the group of an identity that one observation alone has.
use ludock.Common.{
  Bool, true, false, List, [], ◌∷◌, ◌++◌, ◌≡◌, ◌≢◌, refl, sym, ap, ◌∙◌, arith, ◌==◌, bytes_eq,
  Bytes, any, All, Bool-cases, inl, inr, Result, ok, >>=-eq-ok, contains, if_in,
}
use ludock.Observation.{Observation, external_identity}
use ludock.Reconcile.{Snapshot, add_to_group, group_observations}

abbrev under : Bytes → Snapshot → Bool
under key g = g.external == key

abbrev pub Alone : Bytes → Observation → Snapshot → Type 0
Alone key o g = g.external ≡ key → g.group ≡ o ∷ []

-- One group has the key, and the observation alone in it.
abbrev pub Single : Bytes → Observation → List Snapshot → Type 0
Single key o groups = (any (under key) groups ≡ true) × All (Alone key o) groups

-- The observations around it have other identities.
abbrev pub Others : Bytes → List Observation → Type 0
Others key = All (λ x. external_identity x ≢ ok key)

-- An observation of another identity.
added-free :
    (key other : Bytes) (x : Observation) (groups : List Snapshot)
    → other ≢ key
    → any (under key) groups ≡ false
    → any (under key) (add_to_group other x groups) ≡ false
added-free key other x [] ne h = ground (arith, bytes_eq.beq_iff other key)
added-free key other x (g ∷ gs) ne h = elim (Bool-cases (g.external == other)) [
  | inl hit ↦ rw hit (ground arith)
  | inr miss ↦
      let rest = added-free key other x gs ne (ground arith) in rw miss (ground (arith, rest))
]

added-Single :
    (key other : Bytes) (o x : Observation) (groups : List Snapshot)
    → other ≢ key
    → All (Alone key o) groups
    → All (Alone key o) (add_to_group other x groups)
added-Single key other o x [] ne h = (λ e. absurd (ne e), tt)
added-Single key other o x (g ∷ gs) ne h = elim (Bool-cases (g.external == other)) [
  | inl hit ↦ rw hit (λ e. absurd (ne (sym ((bytes_eq.beq_iff g.external other).0 hit) ∙ e)), h.1)
  | inr miss ↦ rw miss (h.0, added-Single key other o x gs ne h.1)
]

added-any :
    (key other : Bytes) (x : Observation) (groups : List Snapshot)
    → any (under key) groups ≡ true
    → any (under key) (add_to_group other x groups) ≡ true
added-any key other x [] h = ground arith
added-any key other x (g ∷ gs) h = elim (Bool-cases (g.external == other)) [
  | inl hit ↦ rw hit (ground arith)
  | inr miss ↦ rw miss (elim (Bool-cases (under key g)) [
    | inl here ↦ rw here refl
    | inr there ↦ rw there (added-any key other x gs (ground arith))
  ])
]

-- The observation itself, where no group has its identity.
added-own :
    (key : Bytes) (o : Observation) (groups : List Snapshot)
    → any (under key) groups ≡ false
    → Single key o (add_to_group key o groups)
added-own key o [] h = (rw ((bytes_eq.beq_iff key key).1 refl) refl, (λ e. refl, tt))
added-own key o (g ∷ gs) h =
    let miss : under key g ≡ false = ground arith in
    let (there, alone) = added-own key o gs (ground arith) in
    rw miss (
      rw miss there,
      (λ e. let hit = (bytes_eq.beq_iff g.external key).1 e in cc (hit, miss), alone),
    )

grouped :
    (seen : List Bytes) (groups gs : List Snapshot) (x : Observation) (rest : List Observation)
    → group_observations seen groups (x ∷ rest) ≡ ok gs
    → (key : Bytes) × (external_identity x ≡ ok key)
      × (group_observations (x.container_id ∷ seen) (add_to_group key x groups) rest ≡ ok gs)
unfolding group_observations
grouped seen groups gs x rest h =
    let (key, own, h1) = >>=-eq-ok (external_identity x) _ h in
    (
      key,
      own,
      if_in
          (λ (r : Result (List Snapshot)).
            r ≡ ok gs
            → group_observations (x.container_id ∷ seen) (add_to_group key x groups) rest ≡ ok gs)
          (contains seen x.container_id) (λ twice e. cc) (λ new e. e) h1,
    )

grouped-after :
    (key : Bytes) (o : Observation) (seen : List Bytes) (groups gs : List Snapshot)
    (rest : List Observation)
    → Others key rest
    → Single key o groups
    → group_observations seen groups rest ≡ ok gs
    → Single key o gs
grouped-after key o seen groups gs [] others single h =
    let same : groups ≡ gs = unfold group_observations in cc in rw (← same) single
grouped-after key o seen groups gs (x ∷ rest) others single h =
    let (other, own, later) = grouped seen groups gs x rest h in
    let ne : other ≢ key = λ e. others.0 (own ∙ ap ok e) in
    grouped-after key o (x.container_id ∷ seen) (add_to_group other x groups) gs rest others.1
      (added-any key other x groups single.0, added-Single key other o x groups ne single.1) later

grouped-before :
    (key : Bytes) (o : Observation) (seen : List Bytes) (groups gs : List Snapshot)
    (first rest : List Observation)
    → Others key first
    → Others key rest
    → external_identity o ≡ ok key
    → any (under key) groups ≡ false
    → group_observations seen groups (first ++ o ∷ rest) ≡ ok gs
    → Single key o gs
grouped-before key o seen groups gs [] rest others after own free h =
    let (other, own', later) = grouped seen groups gs o rest h in
    let same : other ≡ key = cc in
    grouped-after key o (o.container_id ∷ seen) (add_to_group other o groups) gs rest after
      (rw same (added-own key o groups free)) later
grouped-before key o seen groups gs (x ∷ first) rest others after own free h =
    let (other, own', later) = grouped seen groups gs x (first ++ o ∷ rest) h in
    let ne : other ≢ key = λ e. others.0 (own' ∙ ap ok e) in
    grouped-before key o (x.container_id ∷ seen) (add_to_group other x groups) gs first rest
      others.1 after own (added-free key other x groups ne free) later

pub group_observations-Single :
    (key : Bytes) (o : Observation) (groups : List Snapshot) (first rest : List Observation)
    → Others key first
    → Others key rest
    → external_identity o ≡ ok key
    → group_observations [] [] (first ++ o ∷ rest) ≡ ok groups
    → Single key o groups
group_observations-Single key o groups first rest others after own h =
    grouped-before key o [] [] groups first rest others after own refl h
