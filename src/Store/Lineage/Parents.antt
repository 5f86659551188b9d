-- ===== src/Store/Lineage/Parents.antt =====
-- An edit stands in the chain of versions.
use pg_mnestic.Prelude.{
  ℕ, ◌+◌, ◌≡◌, refl, sym, ◌∙◌, ap, subst, inl, inr, Bool, true, false, ◌&&◌, ◌||◌, List, [], ◌∷◌,
  map, Ordering, some, arith, ltb, ◌<◌, ◌==◌, ==_self, filter, find, any, Bool-cases, Option-cases,
}
use pg_mnestic.Text.{Text}
use pg_mnestic.Text.Equality.{text_eq_self}
use pg_mnestic.Core.Types.{Time}
use pg_mnestic.Store.Db.{MemoryRow, Db, ok, Result-cases}
use pg_mnestic.Store.Memories.{insert_row}
use pg_mnestic.Store.Profile.{not_after, insert_sorted, order_by}
use pg_mnestic.Store.Versions.{
  Edit, MemoryVersion, is_editable, version_row, replaced, replace_prior, new_version, root_or,
  supersede_with_new_version,
}
use pg_mnestic.Store.Lineage.{
  LineageRow, is_memory, is_chained, by_version, to_lineage, chain_of, version_chain,
}

any-insert_sorted :
    (p : MemoryRow → Bool) (cmp : MemoryRow → MemoryRow → Ordering) (r : MemoryRow)
    (rs : List MemoryRow)
    → any p (insert_sorted cmp r rs) ≡ any p (r ∷ rs)
unfolding insert_sorted
any-insert_sorted p cmp r [] = refl
any-insert_sorted p cmp r (s ∷ rs) =
    let ih = any-insert_sorted p cmp r rs in
    elim (Bool-cases (not_after (cmp r s))) [ inl e ↦ rw e refl | inr e ↦ rw e (ground arith) ]

any-order_by :
    (p : MemoryRow → Bool) (cmp : MemoryRow → MemoryRow → Ordering) (rs : List MemoryRow)
    → any p (order_by cmp rs) ≡ any p rs
unfolding order_by
any-order_by p cmp [] = refl
any-order_by p cmp (r ∷ rs) =
    any-insert_sorted p cmp r (order_by cmp rs) ∙ ap (λ b. p r || b) (any-order_by p cmp rs)

any-filter :
    (p q : MemoryRow → Bool) (rs : List MemoryRow) → any p (filter q rs) ≡ any (λ r. q r && p r) rs
any-filter p q [] = refl
any-filter p q (r ∷ rs) =
    let ih = any-filter p q rs in
    elim (Bool-cases (q r)) [ inl e ↦ rw e (ap (λ b. p r || b) ih) | inr e ↦ rw e ih ]

any-map :
    {A B : Type 0} (p : B → Bool) (f : A → B) (xs : List A)
    → any p (map f xs) ≡ any (λ x. p (f x)) xs
any-map p f [] = refl
any-map p f (x ∷ xs) = ap (λ b. p (f x) || b) (any-map p f xs)

find-any :
    (q p : MemoryRow → Bool) (rs : List MemoryRow) (r : MemoryRow)
    → find q rs ≡ some r
    → (q r ≡ true → p r ≡ true)
    → any p rs ≡ true
find-any q p [] r h good = ground arith
find-any q p (s ∷ rs) r h good = elim (Bool-cases (q s)) [
  | inl e ↦
      let same : s ≡ r = ground arith in
      let holds : p s ≡ true = subst (λ x. p x ≡ true) (sym same) (good (ap q (sym same) ∙ e)) in
      rw holds refl
  | inr e ↦ let ih = find-any q p rs r (ground arith) good in ground arith
]

any-tail :
    (p : MemoryRow → Bool) (r : MemoryRow) (rs : List MemoryRow)
    → any p rs ≡ true
    → any p (r ∷ rs) ≡ true
any-tail p r rs h = elim (Bool-cases (p r)) [ inl e ↦ rw e refl | inr e ↦ rw e h ]

insert_row-rows :
    (r : MemoryRow) (d d' : Db) (id : ℕ)
    → insert_row r d ≡ ok (id, d')
    → (id ≡ r.id) × (d'.memories ≡ r ∷ d.memories)
unfolding insert_row
insert_row-rows r d d' id h = (ground arith, ground arith)

module _ (tenant_id : ℕ) (actor_id : Text) where
  any-chain :
      (p : LineageRow → Bool) (memory_id : ℕ) (rows : List MemoryRow) (head : MemoryRow)
      → any p (chain_of tenant_id actor_id memory_id rows (some head))
        ≡ any
            (λ r.
              is_chained tenant_id actor_id (root_or head.root_memory_id head.id) memory_id r
              && p (to_lineage head.version r))
            rows
  unfolding chain_of
  any-chain p memory_id rows head =
      let chained = is_chained tenant_id actor_id (root_or head.root_memory_id head.id) memory_id in
      any-map p (to_lineage head.version) (order_by by_version (filter chained rows))
      ∙ any-order_by (λ r. p (to_lineage head.version r)) by_version (filter chained rows)
      ∙ any-filter (λ r. p (to_lineage head.version r)) chained rows

  -- The edited row, once replaced, is a parent in the chain of its root.
  prior-chained :
      (prior_id id : ℕ) (now : Time) (prior : MemoryRow)
      → prior_id < id
      → is_editable tenant_id actor_id prior_id prior ≡ true
      → (is_chained tenant_id actor_id
            (root_or prior.root_memory_id prior_id)
            id
            (replaced tenant_id prior_id now prior)
          && ((replaced tenant_id prior_id now prior).id == prior_id
              && ltb (replaced tenant_id prior_id now prior).version (prior.version + 1)))
        ≡ true
  unfolding is_editable is_chained replaced
  prior-chained prior_id id now prior before h = elim (Option-cases prior.root_memory_id) [
    | inl e ↦ ground arith
    | inr (root, e) ↦ ground arith
  ]

  -- The new row is found under its id.
  find-version :
      (prior_id id : ℕ) (edit : Edit) (prior : MemoryRow) (now later : Time) (rs : List MemoryRow)
      → prior_id < id
      → find (is_memory tenant_id actor_id id) (
          map
            (replaced tenant_id prior_id later)
            (version_row tenant_id actor_id prior_id edit prior id now ∷ rs))
        ≡ some (version_row tenant_id actor_id prior_id edit prior id now)
  unfolding version_row replaced
  find-version prior_id id edit prior now later rs before =
      let other : (id == prior_id) ≡ false = ground arith in
      let self = text_eq_self actor_id in
      let t = ==_self tenant_id in let i = ==_self id in rw (t, other, t, self, i) refl

  any-version :
      (prior_id id : ℕ) (edit : Edit) (prior : MemoryRow) (now later : Time) (rs : List MemoryRow)
      → prior_id < id
      → find (is_editable tenant_id actor_id prior_id) rs ≡ some prior
      → any
          (λ l. l.id == prior_id && l.is_parent)
          (version_chain tenant_id actor_id id (
            map
              (replaced tenant_id prior_id later)
              (version_row tenant_id actor_id prior_id edit prior id now ∷ rs)))
        ≡ true
  unfolding version_chain version_row
  any-version prior_id id edit prior now later rs before e =
      let row = version_row tenant_id actor_id prior_id edit prior id now in
      let all = map (replaced tenant_id prior_id later) (row ∷ rs) in
      let parent = λ (l : LineageRow). l.id == prior_id && l.is_parent in
      let kept = λ (r : MemoryRow).
        is_chained tenant_id actor_id (root_or prior.root_memory_id prior_id) id r
        && (r.id == prior_id && ltb r.version (prior.version + 1)) in
      ap (λ o. any parent (chain_of tenant_id actor_id id all o))
        (find-version prior_id id edit prior now later rs before)
      ∙ any-chain parent id all row
      ∙ any-map kept (replaced tenant_id prior_id later) (row ∷ rs)
      ∙ any-tail (λ r. kept (replaced tenant_id prior_id later r)) row rs
          (find-any (is_editable tenant_id actor_id prior_id)
            (λ r. kept (replaced tenant_id prior_id later r)) rs prior e
            (prior-chained prior_id id later prior before))

  -- After an edit of a memory, whose id is below the next one, the chain of versions of the new memory
  -- has the edited one among the parents.
  pub version_chain-supersede_with_new_version :
      (prior_id : ℕ) (edit : Edit) (d d' : Db) (v : MemoryVersion)
      → prior_id < d.next_id
      → supersede_with_new_version tenant_id actor_id prior_id edit d ≡ ok (some v, d')
      → any
          (λ l. l.id == prior_id && l.is_parent)
          (version_chain tenant_id actor_id v.id d'.memories)
        ≡ true
  unfolding supersede_with_new_version new_version replace_prior version_chain
  version_chain-supersede_with_new_version prior_id edit d d' v before h =
      elim (Option-cases (find (is_editable tenant_id actor_id prior_id) d.memories)) [
        | inl e ↦ ground arith
        | inr (prior, e) ↦
            let row = version_row tenant_id actor_id prior_id edit prior d.next_id d.now in
            elim (Result-cases (insert_row row d)) [
              | inr (x, g) ↦ ground arith
              | inl ((id, mid), g) ↦
                  let added = insert_row-rows row d mid id g in
                  let named : v.id ≡ id = ground arith in
                  let rows : d'.memories ≡ map (replaced tenant_id prior_id mid.now) mid.memories =
                    ground arith in
                  rw (named ∙ added.0, rows, added.1)
                    (any-version prior_id d.next_id edit prior d.now mid.now d.memories before e)
            ]
      ]
