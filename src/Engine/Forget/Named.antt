-- ===== src/Engine/Forget/Named.antt =====
-- What a forget by content removes: only memories that the content names.
use pg_mnestic.Prelude.{
  ℕ, ◌≤◌, ◌≡◌, refl, subst, inl, inr, Bool, true, false, ◌&&◌, not, List, [], ◌∷◌, map, Option,
  none, some, ◌==◌, filter, any, All, is_empty, arith, Bool-cases,
}
use pg_mnestic.Text.{Text}
use pg_mnestic.Core.Types.{Time, Candidate}
use pg_mnestic.Store.Db.{Db, MemoryRow, ok}
use pg_mnestic.Store.Memories.{Uuids, has_key, is_current, to_match, latest_matches, tombstone}
use pg_mnestic.Store.Memories.Invariant.{IsValid, IdsBelow}
use pg_mnestic.Store.Preserve.{Keeps, >>=-Keeps, return-Keeps}
use pg_mnestic.Engine.Persist.{subject_key, attribute_key}
use pg_mnestic.Engine.Forget.Content.{
  want_value, value_matches, forget_keyed, forget_each, forget_by_content,
}
use pg_mnestic.Engine.Forget.Forgotten.{
  Forgotten, Forgotten-refl, Forgotten-mono, by_id, HasForgotten, refresh_if-HasForgotten, Points,
  forget_matches-HasForgotten,
}

-- The current row of the key, with the value that is asked for, if one is.
unfoldable pub is_named_by : ℕ → Text → Option Text → Option Text → Option Text → MemoryRow → Bool
unfolding has_key value_matches
is_named_by tenant_id actor_id (some s) (some a) want r =
    (has_key tenant_id actor_id s a r && is_current r) && value_matches want r.value
is_named_by tenant_id actor_id _ _ want r = false

module _ (uuids : Uuids) (to_lowercase : Text → Text) (synonyms : List (Text × Text))
    (tenant_id : ℕ) (actor_id : Text) where
  -- Does what the extractor found name the row?
  abbrev pub is_named_in : List Candidate → MemoryRow → Bool
  is_named_in cs r =
      any
        (λ c.
          is_named_by tenant_id actor_id (subject_key uuids to_lowercase synonyms c)
            (attribute_key uuids to_lowercase synonyms c) (want_value c) r)
        cs

  module _ (candidates : List Candidate) (now : Time) (base : List MemoryRow) where
    -- The id of a row that is named.
    abbrev good_in : List MemoryRow → ℕ → Bool
    good_in rs n = any (λ r. r.id == n && is_named_in candidates r) rs

    abbrev good : ℕ → Bool
    good = good_in base

    here :
        (r b : MemoryRow) (sub : List MemoryRow)
        → r ≡ b
        → is_named_in candidates r ≡ true
        → good_in (b ∷ sub) r.id ≡ true
    here r b sub same named = subst (λ x. good_in (x ∷ sub) r.id ≡ true) same (ground arith)

    latest-Points :
        (s a : Text) (want : Option Text) (sub rs : List MemoryRow)
        → ((r : MemoryRow)
            → is_named_by tenant_id actor_id (some s) (some a) want r ≡ true
            → is_named_in candidates r ≡ true)
        → ((n : ℕ) → good_in sub n ≡ true → good n ≡ true)
        → Forgotten (by_id tenant_id actor_id good now) now sub rs
        → All (Points tenant_id actor_id good now base uuids want) (
            map
              (to_match uuids)
              (filter (λ r. has_key tenant_id actor_id s a r && is_current r) rs))
    unfolding is_named_by tombstone
    latest-Points s a want [] [] names up h = tt
    latest-Points s a want [] (r ∷ rs) names up h = absurd h
    latest-Points s a want (b ∷ sub) [] names up h = absurd h
    latest-Points s a want (b ∷ sub) (r ∷ rs) names up h =
        let ih = latest-Points s a want sub rs names (λ n g. up n (ground arith)) h.1 in
        elim (Bool-cases (has_key tenant_id actor_id s a r && is_current r)) [
          | inr e ↦ rw e ih
          | inl e ↦ rw e (elim h.0 [
            | inl same ↦
                let listed : (value_matches want r.value ≡ true → good r.id ≡ true) = λ v.
                  let named : is_named_in candidates r ≡ true = names r (ground arith) in
                  up r.id (here r b sub same named) in
                ((r.id, refl, listed), ih)
            | inr (c, gone) ↦ ground arith
          ])
        ]

    abbrev Holds : Db → Type 0
    Holds = HasForgotten tenant_id actor_id good now base

    forget_keyed-Holds :
        (s a want : Option Text) (forgotten : List ℕ)
        → ((r : MemoryRow)
            → is_named_by tenant_id actor_id s a want r ≡ true
            → is_named_in candidates r ≡ true)
        → Keeps Holds (forget_keyed uuids tenant_id actor_id s a want forgotten)
    unfolding forget_keyed latest_matches
    forget_keyed-Holds none a want forgotten names = return-Keeps Holds forgotten
    forget_keyed-Holds (some s) none want forgotten names = return-Keeps Holds forgotten
    forget_keyed-Holds (some s) (some a) want forgotten names = λ d d' ids h v.
        forget_matches-HasForgotten tenant_id actor_id good now base uuids want
          (latest_matches uuids tenant_id actor_id s a d.memories) forgotten
          (latest-Points s a want base d.memories names (λ n g. g) v.0) d d' ids h v

    forget_each-Holds :
        (cs : List Candidate) (forgotten : List ℕ)
        → ((r : MemoryRow) → is_named_in cs r ≡ true → is_named_in candidates r ≡ true)
        → Keeps Holds (forget_each uuids tenant_id actor_id to_lowercase synonyms cs forgotten)
    unfolding forget_each
    forget_each-Holds [] forgotten names = return-Keeps Holds forgotten
    forget_each-Holds (c ∷ cs) forgotten names =
        >>=-Keeps Holds _ _
          (forget_keyed-Holds (subject_key uuids to_lowercase synonyms c)
            (attribute_key uuids to_lowercase synonyms c) (want_value c) forgotten
            (λ r h. names r (ground arith)))
          λ more. forget_each-Holds cs more (λ r h. names r (ground arith))

    -- Ids are distinct, so a row whose id is that of a named row is named.
    below : (n : ℕ) (rs : List MemoryRow) (id : ℕ) → IdsBelow n rs → n ≤ id → good_in rs id ≡ false
    below n [] id h le = refl
    below n (r ∷ rs) id h le =
        let ih = below r.id rs id h.1 (omega (arith, h.0, le)) in ground (arith, h.0)

    widen :
        (r : MemoryRow) (rs : List MemoryRow) (n : ℕ) (sub : List MemoryRow)
        → IdsBelow n sub
        → n ≤ r.id
        → All (λ x. good_in rs x.id ≡ true → is_named_in candidates x ≡ true) sub
        → All (λ x. good_in (r ∷ rs) x.id ≡ true → is_named_in candidates x ≡ true) sub
    widen r rs n [] h le a = tt
    widen r rs n (x ∷ sub) h le a = (
      (λ g. let off : (r.id == x.id) ≡ false = ground (arith, h.0, le) in a.0 (ground arith)),
      widen r rs x.id sub h.1 (omega (arith, h.0, le)) a.1,
    )

    good-named :
        (n : ℕ) (rs : List MemoryRow)
        → IdsBelow n rs
        → All (λ r. good_in rs r.id ≡ true → is_named_in candidates r ≡ true) rs
    good-named n [] h = tt
    good-named n (r ∷ rs) h =
        let ih = good-named r.id rs h.1 in
        (
          (λ g. let off = below r.id rs r.id h.1 (omega arith) in ground arith),
          widen r rs r.id rs h.1 (omega arith) ih,
        )

    forgets_named :
        (d d' : Db) (ids : List ℕ)
        → forget_by_content uuids tenant_id actor_id to_lowercase synonyms candidates d
          ≡ ok (ids, d')
        → IsValid d
        → d.memories ≡ base
        → d.now ≡ now
        → Forgotten (is_named_in candidates) now base d'.memories
    unfolding forget_by_content
    forgets_named d d' ids h v rows clock =
        let start : Holds d =
          (rw rows (Forgotten-refl (by_id tenant_id actor_id good now) now base), clock) in
        let end =
          >>=-Keeps Holds _ _ (forget_each-Holds candidates [] (λ r e. e))
            (λ forgotten.
              >>=-Keeps Holds _ _
                (refresh_if-HasForgotten tenant_id actor_id good now base
                  (not (is_empty forgotten)))
                λ _. return-Keeps Holds forgotten)
            d d' ids h start in
        Forgotten-mono (by_id tenant_id actor_id good now) (is_named_in candidates) now base
          d'.memories (good-named d.next_id base (subst (IdsBelow d.next_id) rows v.ids)) end.0

-- What a forget by content, where it commits, does to the memories: a row is either as it was or a
-- tombstone, and it is a tombstone only if it was a current row of the actor, of the canonical key
-- of a fact that the content states, and with that fact's value where it states one.
pub forget_by_content-named :
    (uuids : Uuids) (to_lowercase : Text → Text) (synonyms : List (Text × Text)) (tenant_id : ℕ)
    (actor_id : Text) (candidates : List Candidate) (d d' : Db) (ids : List ℕ)
    → forget_by_content uuids tenant_id actor_id to_lowercase synonyms candidates d ≡ ok (ids, d')
    → IsValid d
    → Forgotten
        (is_named_in uuids to_lowercase synonyms tenant_id actor_id candidates)
        d.now
        d.memories
        d'.memories
forget_by_content-named uuids to_lowercase synonyms tenant_id actor_id candidates d d' ids h v =
    forgets_named uuids to_lowercase synonyms tenant_id actor_id candidates d.now d.memories d d'
      ids h v refl refl
