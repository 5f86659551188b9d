-- ===== src/Engine/Relate/Neighbors.antt =====
-- The neighbors of a memory share its subject.
use pg_mnestic.Prelude.{
  ℕ, zero, suc, ◌≡◌, ◌⊎◌, inl, inr, Bool, true, false, ◌&&◌, List, [], ◌∷◌, map, none, some,
  Ordering, ◌==◌, filter, take, any, All, arith, Bool-cases, Option-cases,
}
use pg_mnestic.Text.{Text, codes}
use pg_mnestic.Store.Db.{MemoryRow, EdgeRow}
use pg_mnestic.Store.Profile.{not_after, insert_sorted, order_by}
use pg_mnestic.Engine.Relate.{
  is_neighbor, subject_of, newest_recorded, neighbors_of, same_subject_neighbors, text_of,
}

insert_sorted-All :
    (P : MemoryRow → Type 0) (cmp : MemoryRow → MemoryRow → Ordering) (r : MemoryRow)
    (rs : List MemoryRow)
    → P r
    → All P rs
    → All P (insert_sorted cmp r rs)
unfolding insert_sorted
insert_sorted-All P cmp r [] h a = (h, tt)
insert_sorted-All P cmp r (s ∷ rs) h a = elim (Bool-cases (not_after (cmp r s))) [
  | inl e ↦ rw e (h, a)
  | inr e ↦ rw e (a.0, insert_sorted-All P cmp r rs h a.1)
]

order_by-All :
    (P : MemoryRow → Type 0) (cmp : MemoryRow → MemoryRow → Ordering) (rs : List MemoryRow)
    → All P rs
    → All P (order_by cmp rs)
unfolding order_by
order_by-All P cmp [] a = tt
order_by-All P cmp (r ∷ rs) a =
    insert_sorted-All P cmp r (order_by cmp rs) a.0 (order_by-All P cmp rs a.1)

take-All : (P : MemoryRow → Type 0) (n : ℕ) (rs : List MemoryRow) → All P rs → All P (take n rs)
take-All P zero rs a = tt
take-All P (suc n) [] a = tt
take-All P (suc n) (r ∷ rs) a = (a.0, take-All P n rs a.1)

-- The rows of the filter are among the rows.
filter-any :
    (q : MemoryRow → Bool) (good : ℕ → Bool) (rs : List MemoryRow)
    → ((n : ℕ) → any (λ r. q r && r.id == n) rs ≡ true → good n ≡ true)
    → All (λ (r : MemoryRow). good r.id ≡ true) (filter q rs)
filter-any q good [] up = tt
filter-any q good (r ∷ rs) up =
    let ih = filter-any q good rs (λ n h. up n (ground arith)) in
    elim (Bool-cases (q r)) [ inl e ↦ rw e (up r.id (ground arith), ih) | inr e ↦ rw e ih ]

map-All :
    (good : ℕ → Bool) (rs : List MemoryRow)
    → All (λ (r : MemoryRow). good r.id ≡ true) rs
    → All
        (λ (x : ℕ × Text). good x.0 ≡ true)
        (map (λ (r : MemoryRow). (r.id, text_of r.content)) rs)
map-All good [] a = tt
map-All good (r ∷ rs) a = (a.0, map-All good rs a.1)

module _ (tenant_id : ℕ) (actor_id : Text) (rows : List MemoryRow) where
  -- Is `to_id` another current memory of the actor, of the subject of its memory `from_id`?
  unfoldable pub shares_subject : ℕ → ℕ → Bool
  unfolding is_neighbor subject_of
  shares_subject from_id to_id = elim (subject_of tenant_id actor_id from_id rows) [
    | none ↦ false
    | some s ↦ any (λ n. is_neighbor tenant_id actor_id s from_id n && n.id == to_id) rows
  ]

  pub neighbors-All :
      (id limit : ℕ)
      → All
          (λ (x : ℕ × Text). shares_subject id x.0 ≡ true)
          (same_subject_neighbors tenant_id actor_id id limit rows)
  unfolding same_subject_neighbors neighbors_of shares_subject
  neighbors-All id limit = elim (Option-cases (subject_of tenant_id actor_id id rows)) [
    | inl e ↦ rw e tt
    | inr (s, e) ↦ rw e (
        map-All (shares_subject id)
          (take limit
            (order_by newest_recorded (filter (is_neighbor tenant_id actor_id s id) rows)))
          (take-All (λ (r : MemoryRow). shares_subject id r.id ≡ true) limit _
            (order_by-All (λ (r : MemoryRow). shares_subject id r.id ≡ true) newest_recorded _
              (filter-any (is_neighbor tenant_id actor_id s id) (shares_subject id) rows
                (λ n h. rw (e, shares_subject) h)))))
  ]

-- A new edge goes from the memory to one that shares its subject, and has one of the two relations.
unfoldable pub IsNew : ℕ → Text → List MemoryRow → EdgeRow → Type 0
IsNew tenant_id actor_id rows e =
    (e.tenant_id ≡ tenant_id)
    × (e.actor_id ≡ actor_id)
    × (shares_subject tenant_id actor_id rows e.from_id e.to_id ≡ true)
    × ((e.relation ≡ codes "extends") ⊎ (e.relation ≡ codes "derives"))
