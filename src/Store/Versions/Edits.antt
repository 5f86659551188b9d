-- ===== src/Store/Versions/Edits.antt =====
-- Of several edits of one version at most one is made.
use pg_mnestic.Prelude.{
  ℕ, ◌≡◌, refl, ◌∙◌, ap, ◌&&◌, List, [], ◌∷◌, map, none, some, ◌==◌, arith, Bool-cases,
  Option-cases, inl, inr, find,
}
use pg_mnestic.Text.{Text}
use pg_mnestic.Core.Types.{Time}
use pg_mnestic.Store.Db.{MemoryRow, Db, ok, Result-cases}
use pg_mnestic.Store.Memories.{insert_row}
use pg_mnestic.Store.Versions.{
  Edit, MemoryVersion, is_editable, version_row, replaced, replace_prior, new_version,
  supersede_with_new_version,
}

-- No row is editable under an id whose rows were replaced.
find-replaced :
    (tenant_id : ℕ) (actor_id : Text) (prior_id : ℕ) (now : Time) (rs : List MemoryRow)
    → find (is_editable tenant_id actor_id prior_id) (map (replaced tenant_id prior_id now) rs)
      ≡ none
unfolding is_editable replaced
find-replaced tenant_id actor_id prior_id now [] = refl
find-replaced tenant_id actor_id prior_id now (r ∷ rs) =
    let ih = find-replaced tenant_id actor_id prior_id now rs in
    elim (Bool-cases (r.tenant_id == tenant_id && r.id == prior_id)) [
      | inl e ↦ ground arith
      | inr e ↦ ground arith
    ]

-- After an edit of a memory, a further edit of the same version makes none and changes nothing: of two
-- edits of one version only the first is made.
pub supersede_with_new_version_once :
    (tenant_id : ℕ) (actor_id : Text) (prior_id : ℕ) (edit later : Edit) (d d' : Db)
    (v : MemoryVersion)
    → supersede_with_new_version tenant_id actor_id prior_id edit d ≡ ok (some v, d')
    → supersede_with_new_version tenant_id actor_id prior_id later d' ≡ ok (none, d')
unfolding supersede_with_new_version new_version replace_prior
supersede_with_new_version_once tenant_id actor_id prior_id edit later d d' v h =
    elim (Option-cases (find (is_editable tenant_id actor_id prior_id) d.memories)) [
      | inl e ↦ ground arith
      | inr (prior, e) ↦
          elim (Result-cases
            (insert_row (version_row tenant_id actor_id prior_id edit prior d.next_id d.now) d)) [
              | inr (x, g) ↦ ground arith
              | inl ((id, mid), g) ↦
                  let rows : d'.memories ≡ map (replaced tenant_id prior_id mid.now) mid.memories =
                    ground arith in
                  let gone : find (is_editable tenant_id actor_id prior_id) d'.memories ≡ none =
                    ap (find (is_editable tenant_id actor_id prior_id)) rows
                    ∙ find-replaced tenant_id actor_id prior_id mid.now mid.memories in
                  rw (gone, supersede_with_new_version)
            ]
    ]
