-- ===== src/Store/Isolation.antt =====
-- What a tenant's statements leave as it is: everything that belongs to another tenant.
pub mod Writes
pub mod Edits
pub mod Texts
use pg_mnestic.Prelude.{
  ℕ, ◌≡◌, refl, sym, ◌∙◌, ap, Bool, true, false, ◌&&◌, not, List, [], ◌∷◌, map, Option, none, some,
  if◌then◌else◌, filter, find, ◌==◌, arith, Bool-cases, Option-cases, inl, inr,
}
use pg_mnestic.Text.{Text}
use pg_mnestic.Core.Types.{Time}
use pg_mnestic.Store.Span.{lower, tstzrange}
use pg_mnestic.Store.Db.{
  MemoryRow, SourceRow, EdgeRow, ProfileRow, DocumentRow, ChunkRow, Db, Result, ok, err,
  Result-cases,
}
use pg_mnestic.Store.Memories.{
  NewMemoryFull, new_row, insert_row, insert_memory_full, closes, closed_row, close_rows,
  close_prior, bump_row, bump_confidence, forgets, tombstone, forget_memory_by_id, insert_relation,
}
use pg_mnestic.Store.Memories.Frame.{close_rows-nil, close_rows-cons}
use pg_mnestic.Store.Sources.{insert_source}
use pg_mnestic.Store.Profile.{is_profile_of, refresh_profile}
use pg_mnestic.Store.Preserve.{Keeps, Statements}

abbrev pub Rows : Type 0
Rows =
    List MemoryRow
    × List SourceRow
    × List EdgeRow
    × List ProfileRow
    × List DocumentRow
    × List ChunkRow

module _ (tenant_id : ℕ) where
  abbrev pub other_memory : MemoryRow → Bool
  other_memory r = not (r.tenant_id == tenant_id)

  abbrev pub other_source : SourceRow → Bool
  other_source s = not (s.tenant_id == tenant_id)

  abbrev pub other_edge : EdgeRow → Bool
  other_edge e = not (e.tenant_id == tenant_id)

  abbrev pub other_profile : ProfileRow → Bool
  other_profile p = not (p.tenant_id == tenant_id)

  abbrev pub other_document : DocumentRow → Bool
  other_document x = not (x.tenant_id == tenant_id)

  abbrev pub other_chunk : ChunkRow → Bool
  other_chunk x = not (x.tenant_id == tenant_id)

  -- The rows of the other tenants, in order.
  unfoldable pub outside : Db → Rows
  outside d = (
    filter other_memory d.memories,
    filter other_source d.sources,
    filter other_edge d.edges,
    filter other_profile d.profiles,
    filter other_document d.documents,
    filter other_chunk d.chunks,
  )

-- Another tenant's part is `v`.
abbrev pub HasOutside : ℕ → Rows → Db → Type 0
HasOutside tenant_id v d = outside tenant_id d ≡ v

module _ {A : Type 0} (p : A → Bool) where
  -- An UPDATE that hits no row of `p`.
  pub filter-map_outside :
      (f : A → A) (xs : List A)
      → ((a : A) → p a ≡ true → f a ≡ a)
      → ((a : A) → p a ≡ false → p (f a) ≡ false)
      → filter p (map f xs) ≡ filter p xs
  filter-map_outside f [] fixes stays = refl
  filter-map_outside f (x ∷ xs) fixes stays =
      let ih = filter-map_outside f xs fixes stays in
      elim (Bool-cases (p x)) [
        | inl e ↦ rw (fixes x e, e, ih) refl
        | inr e ↦ rw (stays x e, e, ih) refl
      ]

  -- A DELETE that hits no row of `p`.
  pub filter-filter_outside :
      (q : A → Bool) (xs : List A)
      → ((a : A) → p a ≡ true → q a ≡ true)
      → filter p (filter q xs) ≡ filter p xs
  filter-filter_outside q [] keeps = refl
  filter-filter_outside q (x ∷ xs) keeps =
      let ih = filter-filter_outside q xs keeps in
      let kept = keeps x in
      elim (Bool-cases (p x)) [
        | inl e ↦ rw (keeps x e, e, ih) refl
        | inr e ↦ (elim (Bool-cases (q x)) [
          | inl g ↦ rw (g, e, ih) refl
          | inr g ↦ rw (g, e, ih) refl
        ])
      ]

module _ (tenant_id : ℕ) where
  pub outside_same :
      (d d' : Db)
      → d'.documents ≡ d.documents
      → d'.chunks ≡ d.chunks
      → filter (other_memory tenant_id) d'.memories ≡ filter (other_memory tenant_id) d.memories
      → filter (other_source tenant_id) d'.sources ≡ filter (other_source tenant_id) d.sources
      → filter (other_edge tenant_id) d'.edges ≡ filter (other_edge tenant_id) d.edges
      → filter (other_profile tenant_id) d'.profiles ≡ filter (other_profile tenant_id) d.profiles
      → outside tenant_id d' ≡ outside tenant_id d
  unfolding outside
  outside_same d d' x c m s e p = rw (m, s, e, p, x, c) refl

  pub outside_texts :
      (d d' : Db)
      → d'.memories ≡ d.memories
      → d'.sources ≡ d.sources
      → d'.edges ≡ d.edges
      → d'.profiles ≡ d.profiles
      → filter (other_document tenant_id) d'.documents
        ≡ filter (other_document tenant_id) d.documents
      → filter (other_chunk tenant_id) d'.chunks ≡ filter (other_chunk tenant_id) d.chunks
      → outside tenant_id d' ≡ outside tenant_id d
  unfolding outside
  outside_texts d d' m s e p x c = rw (m, s, e, p, x, c) refl

  pub outside_memories :
      (d d' : Db)
      → d'.sources ≡ d.sources
      → d'.edges ≡ d.edges
      → d'.profiles ≡ d.profiles
      → d'.documents ≡ d.documents
      → d'.chunks ≡ d.chunks
      → filter (other_memory tenant_id) d'.memories ≡ filter (other_memory tenant_id) d.memories
      → outside tenant_id d' ≡ outside tenant_id d
  outside_memories d d' s e p x c m =
      outside_same d d' x c m (ap (filter (other_source tenant_id)) s)
        (ap (filter (other_edge tenant_id)) e) (ap (filter (other_profile tenant_id)) p)
