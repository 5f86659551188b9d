-- ===== src/Store/Isolation/Writes.antt =====
-- The statements of a write of memories leave the other tenants' rows as they are.
use pg_mnestic.Prelude.{
  ℕ, ◌≡◌, refl, sym, ◌∙◌, ap, Bool, not, List, [], ◌∷◌, map, some, if◌then◌else◌, filter, arith,
  Option-cases, inl, inr,
}
use pg_mnestic.Text.{Text}
use pg_mnestic.Core.Types.{Time}
use pg_mnestic.Store.Span.{lower, tstzrange}
use pg_mnestic.Store.Db.{MemoryRow, ProfileRow, Db, ok, Result-cases}
use pg_mnestic.Store.Memories.{
  NewMemoryFull, new_row, insert_row, insert_memory_full, closes, closed_row, close_rows,
  close_prior, bump_row, bump_confidence,
}
use pg_mnestic.Store.Memories.Frame.{close_rows-nil, close_rows-cons}
use pg_mnestic.Store.Profile.{is_profile_of, static_facts, dynamic_ctx, refresh_profile}
use pg_mnestic.Store.Preserve.{Statements}
use pg_mnestic.Store.Isolation.{
  other_memory, other_source, other_edge, other_profile, outside, outside_same, outside_memories,
  HasOutside, Rows, filter-map_outside, filter-filter_outside,
}

module _ (tenant_id : ℕ) where
  own_row :
      (r : MemoryRow) (rs : List MemoryRow)
      → r.tenant_id ≡ tenant_id
      → filter (other_memory tenant_id) (r ∷ rs) ≡ filter (other_memory tenant_id) rs
  own_row r rs own = ground arith

  pub insert_row-outside :
      (r : MemoryRow) (d d' : Db) (id : ℕ)
      → r.tenant_id ≡ tenant_id
      → insert_row r d ≡ ok (id, d')
      → outside tenant_id d' ≡ outside tenant_id d
  unfolding insert_row
  insert_row-outside r d d' id own h =
      let rows : d'.memories ≡ r ∷ d.memories = ground arith in
      outside_memories tenant_id d d' (ground arith) (ground arith) (ground arith) (ground arith)
        (ground arith) (ap (filter (other_memory tenant_id)) rows ∙ own_row r d.memories own)

  insert_memory_full-outside :
      (m : NewMemoryFull) (d d' : Db) (id : ℕ)
      → m.tenant_id ≡ tenant_id
      → insert_memory_full m d ≡ ok (id, d')
      → outside tenant_id d' ≡ outside tenant_id d
  unfolding insert_memory_full insert_row new_row
  insert_memory_full-outside m d d' id own h =
      elim (Option-cases (tstzrange (some m.valid_from) m.valid_until)) [
        | inl e ↦ ground arith
        | inr (t, e) ↦ insert_row-outside (new_row m t d.next_id d.now) d d' id own (ground arith)
      ]

  closed_row-tenant_id :
      (at now : Time) (r r' : MemoryRow) → closed_row at now r ≡ ok r' → r'.tenant_id ≡ r.tenant_id
  unfolding closed_row
  closed_row-tenant_id at now r r' h =
      elim (Option-cases (tstzrange (lower r.valid_time) (some at))) [
        | inl e ↦ ground arith
        | inr (v, e) ↦ (elim (Option-cases (tstzrange (lower r.recorded_time) (some now))) [
          | inl g ↦ ground arith
          | inr (u, g) ↦ ground arith
        ])
      ]

  same_head :
      (r : MemoryRow) (rs rs' : List MemoryRow)
      → filter (other_memory tenant_id) rs' ≡ filter (other_memory tenant_id) rs
      → filter (other_memory tenant_id) (r ∷ rs') ≡ filter (other_memory tenant_id) (r ∷ rs)
  same_head r rs rs' e = ap (λ xs. if other_memory tenant_id r then r ∷ xs else xs) e

  close_rows-outside :
      (prior_id : ℕ) (at now : Time) (rs rs' : List MemoryRow) (n : ℕ)
      → close_rows tenant_id prior_id at now rs ≡ ok (rs', n)
      → filter (other_memory tenant_id) rs' ≡ filter (other_memory tenant_id) rs
  unfolding closes closed_row
  close_rows-outside prior_id at now [] rs' n h =
      rw ((close_rows-nil tenant_id prior_id at now rs' n h).0) refl
  close_rows-outside prior_id at now (r ∷ rs) rs' n h =
      let hit = close_rows-cons tenant_id prior_id at now r rs rs' n h in
      let ih = close_rows-outside prior_id at now rs hit.rest hit.others hit.below in
      elim hit.case [
        | inl (r', c, g, e, m) ↦
            let mine : r.tenant_id ≡ tenant_id = ground arith in
            let still : r'.tenant_id ≡ r.tenant_id = closed_row-tenant_id at now r r' g in
            rw e (own_row r' hit.rest (still ∙ mine) ∙ ih ∙ sym (own_row r rs mine))
        | inr (c, e, m) ↦ rw e (same_head r _ _ ih)
      ]

  close_prior-outside :
      (prior_id : ℕ) (at : Time) (d d' : Db) (n : ℕ)
      → close_prior tenant_id prior_id at d ≡ ok (n, d')
      → outside tenant_id d' ≡ outside tenant_id d
  unfolding close_prior
  close_prior-outside prior_id at d d' n h =
      elim (Result-cases (close_rows tenant_id prior_id at d.now d.memories)) [
        | inr (e, b) ↦ ground arith
        | inl ((rs, m), b) ↦
            let rows : d'.memories ≡ rs = ground arith in
            outside_memories tenant_id d d' (ground arith) (ground arith) (ground arith)
              (ground arith) (ground arith)
              (ap (filter (other_memory tenant_id)) rows
                ∙ close_rows-outside prior_id at d.now d.memories rs m b)
      ]

  bump_confidence-outside :
      (id delta : ℕ) (d d' : Db) (u : Unit {0})
      → bump_confidence tenant_id id delta d ≡ ok (u, d')
      → outside tenant_id d' ≡ outside tenant_id d
  unfolding bump_confidence bump_row
  bump_confidence-outside id delta d d' u h =
      let rows : d'.memories ≡ map (bump_row tenant_id id delta) d.memories = ground arith in
      outside_memories tenant_id d d' (ground arith) (ground arith) (ground arith) (ground arith)
        (ground arith)
        (ap (filter (other_memory tenant_id)) rows
          ∙ filter-map_outside (other_memory tenant_id) (bump_row tenant_id id delta) d.memories
              (λ r e. ground arith) (λ r e. ground arith))

  own_profile :
      (q : ProfileRow) (ps : List ProfileRow)
      → q.tenant_id ≡ tenant_id
      → filter (other_profile tenant_id) (q ∷ ps) ≡ filter (other_profile tenant_id) ps
  own_profile q ps own = ground arith

  pub refresh_profile-outside :
      (actor_id : Text) (a b c : ℕ) (d d' : Db) (u : Unit {0})
      → refresh_profile tenant_id actor_id a b c d ≡ ok (u, d')
      → outside tenant_id d' ≡ outside tenant_id d
  unfolding refresh_profile
  refresh_profile-outside actor_id a b c d d' u h =
      let memories : d'.memories ≡ d.memories = ground arith in
      let sources : d'.sources ≡ d.sources = ground arith in
      let edges : d'.edges ≡ d.edges = ground arith in
      let mine : ProfileRow → Bool = λ q. not (is_profile_of tenant_id actor_id q) in
      let written : d'.profiles
          ≡ record {
            tenant_id = tenant_id;
            actor_id = actor_id;
            static_facts = static_facts tenant_id actor_id a b d.memories;
            dynamic_ctx = dynamic_ctx tenant_id actor_id c d.now d.memories;
            refreshed_at = d.now;
          }
            ∷ filter mine d.profiles =
        ground arith in
      outside_same tenant_id d d' (ground arith) (ground arith)
        (ap (filter (other_memory tenant_id)) memories)
        (ap (filter (other_source tenant_id)) sources) (ap (filter (other_edge tenant_id)) edges)
        (ap (filter (other_profile tenant_id)) written
          ∙ own_profile _ _ refl
          ∙ filter-filter_outside (other_profile tenant_id) mine d.profiles (λ q e. ground arith))

  pub Outside-Statements : (v : Rows) → Statements (HasOutside tenant_id v) tenant_id
  Outside-Statements v = record {
    on_insert = λ m own d d' id h e. insert_memory_full-outside m d d' id own h ∙ e;
    on_close = λ prior_id at d d' n h e. close_prior-outside prior_id at d d' n h ∙ e;
    on_bump = λ id delta d d' u h e. bump_confidence-outside id delta d d' u h ∙ e;
    on_refresh = λ actor_id a b c d d' u h e. refresh_profile-outside actor_id a b c d d' u h ∙ e;
  }
