-- ===== src/Store/Versions/Forgotten.antt =====
-- What forgetting a source leaves.
use pg_mnestic.Prelude.{
  ℕ, ◌≡◌, refl, sym, ◌∙◌, ap, Bool, true, false, not, ◌&&◌, ◌||◌, ◌==◌, List, [], ◌∷◌, map, Option,
  if◌then◌else◌, arith, Bool-cases, inl, inr, filter, any, All, All-imp, subst,
}
use pg_mnestic.Text.{Text}
use pg_mnestic.Core.Types.{Time}
use pg_mnestic.Store.Db.{MemoryRow, SourceRow, EdgeRow, Db, ok}
use pg_mnestic.Store.Memories.{tombstone}
use pg_mnestic.Store.Versions.{from_source, touches, forget_source_memories}

none_left_active :
    (tenant_id : ℕ) (actor_id custom_id : Text) (reason : Option Text) (now : Time)
    (ss : List SourceRow) (rs : List MemoryRow)
    → let gone = from_source tenant_id actor_id custom_id ss in
      any gone (map (λ r. if gone r then tombstone reason now r else r) rs) ≡ false
unfolding from_source tombstone
none_left_active tenant_id actor_id custom_id reason now ss [] = refl
none_left_active tenant_id actor_id custom_id reason now ss (r ∷ rs) =
    let ih = none_left_active tenant_id actor_id custom_id reason now ss rs in
    elim (Bool-cases (from_source tenant_id actor_id custom_id ss r)) [
      | inl e ↦ ground arith
      | inr e ↦ ground arith
    ]

untouched :
    (tenant_id : ℕ) (ids : List ℕ) (es : List EdgeRow)
    → All (λ e. touches tenant_id ids e ≡ false) (filter (λ e. not (touches tenant_id ids e)) es)
untouched tenant_id ids [] = tt
untouched tenant_id ids (e ∷ es) = elim (Bool-cases (touches tenant_id ids e)) [
  | inl h ↦ rw h (untouched tenant_id ids es)
  | inr h ↦ rw h (h, untouched tenant_id ids es)
]

-- Is the row one that has the id, at either end of an edge of the tenant?
abbrev pub links : ℕ → MemoryRow → EdgeRow → Bool
links tenant_id r e = e.tenant_id == tenant_id && (e.from_id == r.id || e.to_id == r.id)

links-touches :
    (tenant_id : ℕ) (gone : MemoryRow → Bool) (rs : List MemoryRow) (e : EdgeRow)
    → touches tenant_id (map (λ (r : MemoryRow). r.id) (filter gone rs)) e ≡ false
    → All (λ r. gone r ≡ true → links tenant_id r e ≡ false) rs
links-touches tenant_id gone [] e h = tt
links-touches tenant_id gone (r ∷ rs) e h = elim (Bool-cases (gone r)) [
  | inl g ↦ (λ _. ground arith, links-touches tenant_id gone rs e (ground arith))
  | inr g ↦ (λ t. ground arith, links-touches tenant_id gone rs e (ground arith))
]

-- Forgetting what a custom id brought in: no row of the actor that came from it is active then; no
-- relation edge of the tenant that is left touches a row that was active and came from it; and the
-- ids returned are those of these rows.
pub forget_source_memories_gone :
    (tenant_id : ℕ) (actor_id custom_id : Text) (reason : Option Text) (d d' : Db) (ids : List ℕ)
    → forget_source_memories tenant_id actor_id custom_id reason d ≡ ok (ids, d')
    → (any (from_source tenant_id actor_id custom_id d'.sources) d'.memories ≡ false)
      × All
          (λ e.
            All
              (λ r.
                from_source tenant_id actor_id custom_id d.sources r ≡ true
                → links tenant_id r e ≡ false)
              d.memories)
          d'.edges
      × (ids
          ≡ map
              (λ (r : MemoryRow). r.id)
              (filter (from_source tenant_id actor_id custom_id d.sources) d.memories))
unfolding forget_source_memories
forget_source_memories_gone tenant_id actor_id custom_id reason d d' ids h =
    let gone = from_source tenant_id actor_id custom_id d.sources in
    let sources : d'.sources ≡ d.sources = ground arith in
    let rows : d'.memories ≡ map (λ r. if gone r then tombstone reason d.now r else r) d.memories =
      ground arith in
    let forgotten = map (λ (r : MemoryRow). r.id) (filter gone d.memories) in
    let edges : d'.edges ≡ filter (λ e. not (touches tenant_id forgotten e)) d.edges =
      ground arith in
    let Unlinked =
      λ (e : EdgeRow). All (λ r. gone r ≡ true → links tenant_id r e ≡ false) d.memories in
    (
      ap (λ ss. any (from_source tenant_id actor_id custom_id ss) d'.memories) sources
          ∙ ap (any gone) rows
          ∙ none_left_active tenant_id actor_id custom_id reason d.now d.sources d.memories,
      subst (λ es. All Unlinked es) (sym edges)
          (All-imp (λ e t. links-touches tenant_id gone d.memories e t) _
            (untouched tenant_id forgotten d.edges)),
      ground arith,
    )
