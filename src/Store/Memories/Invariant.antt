-- ===== src/Store/Memories/Invariant.antt =====
-- The invariant of mnestic_memory, and that each statement keeps it.
use pg_mnestic.Prelude.{
  ℕ, suc, ◌<◌, ◌≡◌, refl, inl, inr, Bool, true, false, ◌&&◌, List, [], ◌∷◌, map, Option, some,
  arith, ◌==◌, if◌then◌else◌, any, All, Bool-cases, Option-cases, subst,
}
use pg_mnestic.Text.{Text}
use pg_mnestic.Core.Types.{Time}
use pg_mnestic.Store.Span.{lower, tstzrange}
use pg_mnestic.Store.Db.{MemoryRow, Db, ok, superseded, ok-injective_db, Result-cases}
use pg_mnestic.Store.Preserve.{Keeps}
use pg_mnestic.Store.Memories.Frame.{close_rows-nil, close_rows-cons}
use pg_mnestic.Store.Memories.{
  conflicts, is_guarded, passes_checks, insert_row, NewMemoryFull, new_row, insert_memory_full,
  closed_row, close_rows, close_prior, bump_row, bump_confidence, tombstone, forgets,
  forget_memory_by_id,
}

-- Ids fall along the table, and stay under the next one: no two rows share an id.
abbrev pub IdsBelow : ℕ → List MemoryRow → Type 0
IdsBelow n [] = Unit
IdsBelow n (r ∷ rs) = (r.id < n) × IdsBelow r.id rs

-- No two rows violate `no_overlap_single_valued`.
abbrev pub Exclusive : List MemoryRow → Type 0
Exclusive [] = Unit
Exclusive (r ∷ rs) = All (λ s. conflicts r s ≡ false) rs × Exclusive rs

pub record IsWellFormed (rows : List MemoryRow) (next_id : ℕ) : Type 0 where
  pub ids : IdsBelow next_id rows
  pub exclusive : Exclusive rows
  pub checked : All (λ r. passes_checks r ≡ true) rows

abbrev pub IsValid : Db → Type 0
IsValid d = IsWellFormed d.memories d.next_id

-- `r'` is `r` after an UPDATE that adds no conflict.
pub record Weakens (r r' : MemoryRow) : Type 0 where
  same_id : r'.id ≡ r.id
  still_checked : passes_checks r ≡ true → passes_checks r' ≡ true
  as_left : (s : MemoryRow) → conflicts r s ≡ false → conflicts r' s ≡ false
  as_right : (s : MemoryRow) → conflicts s r ≡ false → conflicts s r' ≡ false

pub Weakens-refl : (r : MemoryRow) → Weakens r r
Weakens-refl r = record {
  same_id = refl;
  still_checked = λ h. h;
  as_left = λ s h. h;
  as_right = λ s h. h;
}

conflicts-unguarded_right : (s r : MemoryRow) → is_guarded r ≡ false → conflicts s r ≡ false
unfolding conflicts
conflicts-unguarded_right s r h = rw h (ground arith)

-- A row that leaves the partial index conflicts with none.
pub Weakens-unguarded :
    (r r' : MemoryRow)
    → r'.id ≡ r.id
    → (passes_checks r ≡ true → passes_checks r' ≡ true)
    → is_guarded r' ≡ false
    → Weakens r r'
unfolding conflicts
Weakens-unguarded r r' same checks out = record {
  same_id = same;
  still_checked = checks;
  as_left = λ s h. rw out;
  as_right = λ s h. conflicts-unguarded_right s r' out;
}

abbrev pub Weakened : List MemoryRow → List MemoryRow → Type 0
Weakened [] [] = Unit
Weakened [] (r' ∷ rs') = ⊥
Weakened (r ∷ rs) [] = ⊥
Weakened (r ∷ rs) (r' ∷ rs') = Weakens r r' × Weakened rs rs'

Weakened-IdsBelow :
    (n : ℕ) (rs rs' : List MemoryRow) → Weakened rs rs' → IdsBelow n rs → IdsBelow n rs'
Weakened-IdsBelow n [] [] w h = tt
Weakened-IdsBelow n [] (r' ∷ rs') w h = absurd w
Weakened-IdsBelow n (r ∷ rs) [] w h = absurd w
Weakened-IdsBelow n (r ∷ rs) (r' ∷ rs') w h =
    (rw w.0.same_id h.0, rw w.0.same_id (Weakened-IdsBelow r.id rs rs' w.1 h.1))

Weakened-checked :
    (rs rs' : List MemoryRow)
    → Weakened rs rs'
    → All (λ r. passes_checks r ≡ true) rs
    → All (λ r. passes_checks r ≡ true) rs'
Weakened-checked [] [] w h = tt
Weakened-checked [] (r' ∷ rs') w h = absurd w
Weakened-checked (r ∷ rs) [] w h = absurd w
Weakened-checked (r ∷ rs) (r' ∷ rs') w h = (w.0.still_checked h.0, Weakened-checked rs rs' w.1 h.1)

Weakened-clear :
    (r r' : MemoryRow) (rs rs' : List MemoryRow)
    → Weakens r r'
    → Weakened rs rs'
    → All (λ s. conflicts r s ≡ false) rs
    → All (λ s. conflicts r' s ≡ false) rs'
Weakened-clear r r' [] [] v w h = tt
Weakened-clear r r' [] (s' ∷ rs') v w h = absurd w
Weakened-clear r r' (s ∷ rs) [] v w h = absurd w
Weakened-clear r r' (s ∷ rs) (s' ∷ rs') v w h =
    (w.0.as_right r' (v.as_left s h.0), Weakened-clear r r' rs rs' v w.1 h.1)

Weakened-Exclusive : (rs rs' : List MemoryRow) → Weakened rs rs' → Exclusive rs → Exclusive rs'
Weakened-Exclusive [] [] w h = tt
Weakened-Exclusive [] (r' ∷ rs') w h = absurd w
Weakened-Exclusive (r ∷ rs) [] w h = absurd w
Weakened-Exclusive (r ∷ rs) (r' ∷ rs') w h =
    (Weakened-clear r r' rs rs' w.0 w.1 h.0, Weakened-Exclusive rs rs' w.1 h.1)

pub Weakened-IsWellFormed :
    (n : ℕ) (rs rs' : List MemoryRow) → Weakened rs rs' → IsWellFormed rs n → IsWellFormed rs' n
Weakened-IsWellFormed n rs rs' w v = record {
  ids = Weakened-IdsBelow n rs rs' w v.ids;
  exclusive = Weakened-Exclusive rs rs' w v.exclusive;
  checked = Weakened-checked rs rs' w v.checked;
}

pub map-Weakened :
    (f : MemoryRow → MemoryRow)
    → ((r : MemoryRow) → Weakens r (f r))
    → (rs : List MemoryRow) → Weakened rs (map f rs)
map-Weakened f w [] = tt
map-Weakened f w (r ∷ rs) = (w r, map-Weakened f w rs)

any-none :
    (p : MemoryRow → Bool) (rs : List MemoryRow) → any p rs ≡ false → All (λ s. p s ≡ false) rs
any-none p [] h = tt
any-none p (r ∷ rs) h = (ground arith, any-none p rs (ground arith))

pub insert_row-Keeps_at :
    (r : MemoryRow) (d d' : Db) (id : ℕ)
    → r.id ≡ d.next_id
    → insert_row r d ≡ ok (id, d')
    → IsValid d
    → IsValid d'
unfolding insert_row
insert_row-Keeps_at r d d' id fresh h v = elim (Bool-cases (passes_checks r)) [
  | inr e ↦ ground arith
  | inl e ↦ elim (Bool-cases (any (conflicts r) d.memories)) [
    | inl c ↦ ground arith
    | inr c ↦
        let grown : d' ≡ record d { memories = r ∷ d.memories; next_id = suc r.id } =
          ground arith in
        let below : IdsBelow r.id d.memories = rw fresh v.ids in
        rw grown (record {
          ids = (omega arith, below);
          exclusive = (any-none (conflicts r) d.memories c, v.exclusive);
          checked = (e, v.checked);
        })
  ]
]

pub insert_memory_full-Keeps : (m : NewMemoryFull) → Keeps IsValid (insert_memory_full m)
unfolding insert_memory_full new_row
insert_memory_full-Keeps m d d' id h v =
    elim (Option-cases (tstzrange (some m.valid_from) m.valid_until)) [
      | inl e ↦ ground arith
      | inr (t, e) ↦ insert_row-Keeps_at (new_row m t d.next_id d.now) d d' id refl (ground arith) v
    ]

pub tombstone-Weakens :
    (reason : Option Text) (now : Time) (r : MemoryRow) → Weakens r (tombstone reason now r)
unfolding tombstone is_guarded passes_checks
tombstone-Weakens reason now r = Weakens-unguarded r (tombstone reason now r) refl (λ h. h) refl

forget_row-Weakens :
    (tenant_id : ℕ) (actor_id : Text) (id : ℕ) (reason : Option Text) (now : Time) (r : MemoryRow)
    → Weakens r (if forgets tenant_id actor_id id r then tombstone reason now r else r)
forget_row-Weakens tenant_id actor_id id reason now r =
    elim (Bool-cases (forgets tenant_id actor_id id r)) [
      | inl e ↦ rw e (tombstone-Weakens reason now r)
      | inr e ↦ rw e (Weakens-refl r)
    ]

pub forget_memory_by_id-Keeps :
    (tenant_id : ℕ) (actor_id : Text) (id : ℕ) (reason : Option Text)
    → Keeps IsValid (forget_memory_by_id tenant_id actor_id id reason)
unfolding forget_memory_by_id
forget_memory_by_id-Keeps tenant_id actor_id id reason d d' n h v =
    let w =
      Weakened-IsWellFormed d.next_id d.memories _
        (map-Weakened _ (forget_row-Weakens tenant_id actor_id id reason d.now) d.memories) v in
    subst IsValid (ok-injective_db h) w

bump_row-Weakens :
    (tenant_id id delta : ℕ) (r : MemoryRow) → Weakens r (bump_row tenant_id id delta r)
unfolding bump_row passes_checks conflicts is_guarded
bump_row-Weakens tenant_id id delta r = elim (Bool-cases (r.tenant_id == tenant_id && r.id == id)) [
  | inl e ↦ rw e (record {
    same_id = refl;
    still_checked = λ h. ground arith;
    as_left = λ s h. h;
    as_right = λ s h. h;
  })
  | inr e ↦ rw e (Weakens-refl r)
]

pub bump_confidence-Keeps :
    (tenant_id id delta : ℕ) → Keeps IsValid (bump_confidence tenant_id id delta)
unfolding bump_confidence
bump_confidence-Keeps tenant_id id delta d d' u h v = subst IsValid (ok-injective_db h) (
    Weakened-IsWellFormed d.next_id d.memories _
      (map-Weakened _ (bump_row-Weakens tenant_id id delta) d.memories) v)

closed_row-Weakens : (at now : Time) (r r' : MemoryRow) → closed_row at now r ≡ ok r' → Weakens r r'
unfolding closed_row is_guarded passes_checks
closed_row-Weakens at now r r' h = elim (Option-cases (tstzrange (lower r.valid_time) (some at))) [
  | inl e ↦ ground arith
  | inr (t, e) ↦ elim (Option-cases (tstzrange (lower r.recorded_time) (some now))) [
    | inl f ↦ ground arith
    | inr (u, f) ↦ subst (Weakens r) (ground arith) (
        Weakens-unguarded r
          (record r { valid_time = t; recorded_time = u; status = superseded; is_latest = false })
          refl (λ c. c) refl)
  ]
]

close_rows-Weakened :
    (tenant_id prior_id : ℕ) (at now : Time) (rs rs' : List MemoryRow) (n : ℕ)
    → close_rows tenant_id prior_id at now rs ≡ ok (rs', n)
    → Weakened rs rs'
close_rows-Weakened tenant_id prior_id at now [] rs' n h =
    rw (close_rows-nil tenant_id prior_id at now rs' n h).0 tt
close_rows-Weakened tenant_id prior_id at now (r ∷ rs) rs' n h =
    let hit = close_rows-cons tenant_id prior_id at now r rs rs' n h in
    let ih = close_rows-Weakened tenant_id prior_id at now rs hit.rest hit.others hit.below in
    elim (hit.case) [
      | inl (r', c, g, e, m) ↦ rw e (closed_row-Weakens at now r r' g, ih)
      | inr (c, e, m) ↦ rw e (Weakens-refl r, ih)
    ]

pub close_prior-Keeps :
    (tenant_id prior_id : ℕ) (at : Time) → Keeps IsValid (close_prior tenant_id prior_id at)
unfolding close_prior
close_prior-Keeps tenant_id prior_id at d d' n h v =
    elim (Result-cases (close_rows tenant_id prior_id at d.now d.memories)) [
      | inr (e, b) ↦ ground arith
      | inl ((rows, m), b) ↦
          let closed : record d { memories = rows } ≡ d' = ground arith in
          subst IsValid closed (
            Weakened-IsWellFormed d.next_id d.memories rows
              (close_rows-Weakened tenant_id prior_id at d.now d.memories rows m b) v)
    ]
