-- ===== src/Engine/Forget/Forgotten.antt =====
-- A transaction that only forgets, row by row.
use pg_mnestic.Prelude.{
  ℕ, ◌≡◌, refl, sym, ◌∙◌, ap, subst, ◌⊎◌, inl, inr, Bool, true, false, List, [], ◌∷◌, ◌++◌, map,
  Option, some, ◌==◌, if◌then◌else◌, All, arith, Bool-cases,
}
use pg_mnestic.Text.{Text, codes}
use pg_mnestic.Core.Types.{Time, ExistingMatch}
use pg_mnestic.Store.Db.{Db, MemoryRow, ok, >>=-eq-ok, lift-eq-ok, lift}
use pg_mnestic.Store.Memories.{Uuids, forgets, tombstone, forget_memory_by_id}
use pg_mnestic.Store.Preserve.{Keeps, >>=-Keeps, return-Keeps}
use pg_mnestic.Store.Profile.{refresh_profile}
use pg_mnestic.Engine.Write.{parse_id}
use pg_mnestic.Engine.Forget.{refresh_if}
use pg_mnestic.Engine.Forget.Content.{value_matches, forget_matches}

abbrev pub reason : Option Text
reason = some (codes "forgotten by content")

-- Row by row: as it was, or forgotten, which only a row of `p` is.
abbrev pub Forgotten : (MemoryRow → Bool) → Time → List MemoryRow → List MemoryRow → Type 0
Forgotten p now [] [] = Unit
Forgotten p now [] (r' ∷ rs') = ⊥
Forgotten p now (r ∷ rs) [] = ⊥
Forgotten p now (r ∷ rs) (r' ∷ rs') =
    ((r' ≡ r) ⊎ ((p r ≡ true) × (r' ≡ tombstone reason now r))) × Forgotten p now rs rs'

pub Forgotten-refl :
    (p : MemoryRow → Bool) (now : Time) (rs : List MemoryRow) → Forgotten p now rs rs
Forgotten-refl p now [] = tt
Forgotten-refl p now (r ∷ rs) = (inl refl, Forgotten-refl p now rs)

pub Forgotten-mono :
    (p q : MemoryRow → Bool) (now : Time) (rs rs' : List MemoryRow)
    → All (λ r. p r ≡ true → q r ≡ true) rs
    → Forgotten p now rs rs'
    → Forgotten q now rs rs'
Forgotten-mono p q now [] [] imp h = tt
Forgotten-mono p q now [] (r' ∷ rs') imp h = absurd h
Forgotten-mono p q now (r ∷ rs) [] imp h = absurd h
Forgotten-mono p q now (r ∷ rs) (r' ∷ rs') imp h = (
  elim h.0 [ inl e ↦ inl e | inr (c, e) ↦ inr (imp.0 c, e) ],
  Forgotten-mono p q now rs rs' imp.1 h.1,
)

module _ (tenant_id : ℕ) (actor_id : Text) (good : ℕ → Bool) (now : Time) where
  abbrev pub by_id : MemoryRow → Bool
  by_id r = good r.id

  forget_row :
      (id : ℕ) (b r : MemoryRow)
      → good id ≡ true
      → (r ≡ b) ⊎ ((by_id b ≡ true) × (r ≡ tombstone reason now b))
      → ((if forgets tenant_id actor_id id r then tombstone reason now r else r) ≡ b)
        ⊎ ((by_id b ≡ true)
            × ((if forgets tenant_id actor_id id r then tombstone reason now r else r)
                ≡ tombstone reason now b))
  unfolding forgets tombstone
  forget_row id b r allowed (inl e) = rw e (elim (Bool-cases (forgets tenant_id actor_id id b)) [
    | inl f ↦ let same : b.id ≡ id = ground arith in inr (ap good same ∙ allowed, rw f refl)
    | inr f ↦ inl (rw f refl)
  ])
  forget_row id b r allowed (inr (c, e)) = inr (c, rw e (ground arith))

  forget_rows :
      (id : ℕ) (base rs : List MemoryRow)
      → good id ≡ true
      → Forgotten by_id now base rs
      → Forgotten by_id now base
          (map (λ r. if forgets tenant_id actor_id id r then tombstone reason now r else r) rs)
  forget_rows id [] [] allowed h = tt
  forget_rows id [] (r ∷ rs) allowed h = absurd h
  forget_rows id (b ∷ base) [] allowed h = absurd h
  forget_rows id (b ∷ base) (r ∷ rs) allowed h =
      (forget_row id b r allowed h.0, forget_rows id base rs allowed h.1)

  module _ (base : List MemoryRow) where
    -- The transaction has only forgotten rows of `good`.
    abbrev pub HasForgotten : Db → Type 0
    HasForgotten d = Forgotten by_id now base d.memories × (d.now ≡ now)

    forget_memory-HasForgotten :
        (id : ℕ)
        → good id ≡ true
        → Keeps HasForgotten (forget_memory_by_id tenant_id actor_id id reason)
    unfolding forget_memory_by_id
    forget_memory-HasForgotten id allowed d d' n h v =
        let rows : d'.memories
            ≡ map (λ r. if forgets tenant_id actor_id id r then tombstone reason d.now r else r)
                d.memories =
          ground arith in
        let clock : d'.now ≡ d.now = ground arith in
        (
          subst (Forgotten by_id now base)
              (sym (
                rows
                ∙ ap
                    (λ t.
                      map (λ r. if forgets tenant_id actor_id id r then tombstone reason t r else r)
                        d.memories)
                    v.1))
              (forget_rows id base d.memories allowed v.0),
          clock ∙ v.1,
        )

    pub refresh_if-HasForgotten : (b : Bool) → Keeps HasForgotten (refresh_if b tenant_id actor_id)
    unfolding refresh_if refresh_profile
    refresh_if-HasForgotten true d d' u h v =
        let rows : d'.memories ≡ d.memories = ground arith in
        let clock : d'.now ≡ d.now = ground arith in (rw rows v.0, clock ∙ v.1)
    refresh_if-HasForgotten false d d' u h v = return-Keeps HasForgotten tt d d' u h v

    module _ (uuids : Uuids) where
      -- The match stands for a row that may be forgotten, if its value is asked for.
      abbrev pub Points : Option Text → ExistingMatch → Type 0
      Points want m =
          (n : ℕ) × (m.id ≡ uuids.to_string n) × (value_matches want m.value ≡ true → good n ≡ true)

      parsed : (n id : ℕ) (t : Text) → t ≡ uuids.to_string n → parse_id uuids t ≡ ok id → n ≡ id
      unfolding parse_id
      parsed n id t e h = let back = uuids.parse_str-to_string n in ground arith

      pub forget_matches-HasForgotten :
          (want : Option Text) (ms : List ExistingMatch) (forgotten : List ℕ)
          → All (Points want) ms
          → Keeps HasForgotten (forget_matches uuids tenant_id actor_id want ms forgotten)
      unfolding forget_matches
      forget_matches-HasForgotten want [] forgotten a = return-Keeps HasForgotten forgotten
      forget_matches-HasForgotten want (m ∷ ms) forgotten a =
          elim (Bool-cases (value_matches want m.value)) [
            | inr e ↦ rw e (forget_matches-HasForgotten want ms forgotten a.1)
            | inl e ↦ rw e (λ d d' ids h v.
                let (id, mid, f, g) = >>=-eq-ok (lift (parse_id uuids m.id)) _ d h in
                let (parse, same) = lift-eq-ok (parse_id uuids m.id) f in
                let (n, printed, allowed) = a.0 in
                let good_id : good id ≡ true =
                  ap good (sym (parsed n id m.id printed parse)) ∙ allowed e in
                >>=-Keeps HasForgotten _ _ (forget_memory-HasForgotten id good_id)
                  (λ k.
                    forget_matches-HasForgotten want ms
                      (if k == 1 then forgotten ++ id ∷ [] else forgotten) a.1)
                  mid d' ids g (subst HasForgotten same v))
          ]
