-- ===== src/Store/MetaFilter/Shape.antt =====
-- The text of a rendered filter has nothing of the keys and values.
use pg_mnestic.Prelude.{
  ℕ, suc, ◌≡◌, refl, ap, Bool, true, false, List, ◌∷◌, Option, none, some, leb, Bool-cases, inl,
  inr,
}
use pg_mnestic.Text.{Text, codes}
use pg_mnestic.Store.MetaFilter.{
  MetaKind, MetaOp, MetaLeaf, MetaFilter, MetaFilters, equality, numeric, array_contains,
  string_contains, all_of, any_of, leaf, none_left, child, meta_filter_max_depth, Rendered, bind,
  bind_both, numeric_body, body_of_kind, body_sql, leaf_sql, to_sql, parts_sql, numeric_sql,
  equality_sql, array_sql, string_sql, negated, combined,
}

-- The leaves differ in key and value only, both values a finite number or neither.
pub record SameLeaf (is_finite : Text → Bool) (l m : MetaLeaf) : Type 0 where
  pub kind : l.kind ≡ m.kind
  pub op : l.op ≡ m.op
  pub negate : l.negate ≡ m.negate
  pub ignore_case : l.ignore_case ≡ m.ignore_case
  pub finite : is_finite l.value ≡ is_finite m.value

mutual
  -- The filters differ in their leaves' keys and values only.
  pub data SameShape (is_finite : Text → Bool) : MetaFilter → MetaFilter → Type 0 where
    all_same :
        {fs gs : MetaFilters}
        → SameShapes is_finite fs gs
        → SameShape is_finite (all_of fs) (all_of gs)
    any_same :
        {fs gs : MetaFilters}
        → SameShapes is_finite fs gs
        → SameShape is_finite (any_of fs) (any_of gs)
    leaf_same : {l m : MetaLeaf} → SameLeaf is_finite l m → SameShape is_finite (leaf l) (leaf m)

  pub data SameShapes (is_finite : Text → Bool) : MetaFilters → MetaFilters → Type 0 where
    none_same : SameShapes is_finite none_left none_left
    child_same :
        {f g : MetaFilter} {fs gs : MetaFilters}
        → SameShape is_finite f g
        → SameShapes is_finite fs gs
        → SameShapes is_finite (child f fs) (child g gs)

-- One text, and one number after it.
Agree : {A : Type 0} → Rendered A → Rendered A → Type 0
Agree r s = (r.sql ≡ s.sql) × (r.next ≡ s.next)

bind_both-Agree :
    (l m : MetaLeaf) (text : Text → Text → Text) (next : ℕ) (b c : List Text)
    → Agree (bind_both l text next b) (bind_both m text next c)
unfolding Agree bind_both bind
bind_both-Agree l m text next b c = (refl, refl)

module _ (col : Text) (is_finite : Text → Bool) where
  numeric_body-Agree :
      (l m : MetaLeaf) (op : Option MetaOp) (finite : Bool) (next : ℕ) (b c : List Text)
      → Agree
          (numeric_body col is_finite l op finite next b)
          (numeric_body col is_finite m op finite next c)
  unfolding Agree numeric_body
  numeric_body-Agree l m (some op) true next b c = bind_both-Agree l m (numeric_sql col op) next b c
  numeric_body-Agree l m (some op) false next b c = (refl, refl)
  numeric_body-Agree l m none finite next b c = (refl, refl)

  body_of_kind-Agree :
      (l m : MetaLeaf) (kind : MetaKind) (next : ℕ) (b c : List Text)
      → SameLeaf is_finite l m
      → Agree (body_of_kind col is_finite l kind next b) (body_of_kind col is_finite m kind next c)
  unfolding body_of_kind
  body_of_kind-Agree l m equality next b c h =
      rw h.ignore_case (bind_both-Agree l m (equality_sql col m.ignore_case) next b c)
  body_of_kind-Agree l m numeric next b c h =
      rw (h.op, h.finite) (numeric_body-Agree l m m.op (is_finite m.value) next b c)
  body_of_kind-Agree l m array_contains next b c h = bind_both-Agree l m (array_sql col) next b c
  body_of_kind-Agree l m string_contains next b c h =
      rw h.ignore_case (bind_both-Agree l m (string_sql col m.ignore_case) next b c)

  leaf_sql-Agree :
      (l m : MetaLeaf) (next : ℕ) (b c : List Text)
      → SameLeaf is_finite l m
      → Agree (leaf_sql col is_finite l next b) (leaf_sql col is_finite m next c)
  unfolding leaf_sql body_sql Agree
  leaf_sql-Agree l m next b c h =
      let same = body_of_kind-Agree l m m.kind next b c h in
      rw (h.kind, h.negate) (ap (negated col is_finite m.negate) same.0, same.1)

  mutual
    unfolding to_sql parts_sql Agree

    to_sql-Agree :
        {f g : MetaFilter} (next : ℕ) (b c : List Text) (depth : ℕ)
        → SameShape is_finite f g
        → Agree (to_sql col is_finite f next b depth) (to_sql col is_finite g next c depth)
    to_sql-Agree next b c depth (all_same {fs} {gs} h) =
        let same = parts_sql-Agree next b c (suc depth) h in
        elim (Bool-cases (leb meta_filter_max_depth depth)) [
          | inl e ↦ rw e (refl, refl)
          | inr e ↦ rw e (ap (combined col is_finite (codes " AND ")) same.0, same.1)
        ]
    to_sql-Agree next b c depth (any_same {fs} {gs} h) =
        let same = parts_sql-Agree next b c (suc depth) h in
        elim (Bool-cases (leb meta_filter_max_depth depth)) [
          | inl e ↦ rw e (refl, refl)
          | inr e ↦ rw e (ap (combined col is_finite (codes " OR ")) same.0, same.1)
        ]
    to_sql-Agree next b c depth (leaf_same {l} {m} h) =
        elim (Bool-cases (leb meta_filter_max_depth depth)) [
          | inl e ↦ rw e (refl, refl)
          | inr e ↦ rw e (leaf_sql-Agree l m next b c h)
        ]

    parts_sql-Agree :
        {fs gs : MetaFilters} (next : ℕ) (b c : List Text) (depth : ℕ)
        → SameShapes is_finite fs gs
        → Agree (parts_sql col is_finite fs next b depth) (parts_sql col is_finite gs next c depth)
    parts_sql-Agree next b c depth none_same = (refl, refl)
    parts_sql-Agree next b c depth (child_same {f} {g} {fs} {gs} h k) =
        let first = to_sql-Agree next b c depth h in
        let left = to_sql col is_finite f next b depth in
        let right = to_sql col is_finite g next c depth in
        let others = parts_sql-Agree right.next left.binds right.binds depth k in
        rw (first.0, first.1) (ap (λ r. right.sql ∷ r) others.0, others.1)

  -- Filters that differ in their leaves' keys and values only, both values of a pair a finite number
  -- or neither, are rendered to one text, whatever was bound before: no key and no value reaches it.
  pub to_sql-SameShape :
      (f g : MetaFilter) (next : ℕ) (b c : List Text) (depth : ℕ)
      → SameShape is_finite f g
      → (to_sql col is_finite f next b depth).sql ≡ (to_sql col is_finite g next c depth).sql
  unfolding Agree
  to_sql-SameShape f g next b c depth h = (to_sql-Agree next b c depth h).0
