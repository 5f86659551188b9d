-- ===== src/Store/MetaFilter/Binds.antt =====
-- The binds of a rendered filter, and the numbers that follow them.
use pg_mnestic.Prelude.{
  ℕ, suc, ◌+◌, ◌≡◌, sym, ◌∙◌, ap, Bool, true, false, List, [], ◌∷◌, ◌++◌, append_assoc, append-nil,
  Option, none, some, leb, if◌then◌else◌, length, length-append, arith, Bool-cases, inl, inr,
}
use pg_mnestic.Text.{Text, codes}
use pg_mnestic.Store.MetaFilter.{
  MetaKind, MetaOp, MetaLeaf, MetaFilter, MetaFilters, equality, numeric, array_contains,
  string_contains, all_of, any_of, leaf, none_left, child, meta_filter_max_depth, Rendered, bind,
  bind_both, numeric_body, body_of_kind, body_sql, leaf_sql, to_sql, parts_sql, numeric_sql,
  equality_sql, array_sql, string_sql,
}

-- The values that a leaf binds.
abbrev pub both_of : MetaLeaf → List Text
both_of l = l.key ∷ l.value ∷ []

abbrev pub numeric_values : MetaLeaf → Option MetaOp → Bool → List Text
numeric_values l (some op) true = both_of l
numeric_values l (some op) false = []
numeric_values l none finite = []

abbrev pub values_of_kind : (Text → Bool) → MetaLeaf → MetaKind → List Text
values_of_kind is_finite l equality = both_of l
values_of_kind is_finite l numeric = numeric_values l l.op (is_finite l.value)
values_of_kind is_finite l array_contains = both_of l
values_of_kind is_finite l string_contains = both_of l

-- The keys and values of the leaves in order, but of those too deep and of numbers that compare with
-- nothing.
unfoldable mutual
  pub values : (Text → Bool) → MetaFilter → ℕ → List Text
  values is_finite (all_of fs) depth =
      if leb meta_filter_max_depth depth then [] else all_values is_finite fs (suc depth)
  values is_finite (any_of fs) depth =
      if leb meta_filter_max_depth depth then [] else all_values is_finite fs (suc depth)
  values is_finite (leaf l) depth =
      if leb meta_filter_max_depth depth then [] else values_of_kind is_finite l l.kind

  pub all_values : (Text → Bool) → MetaFilters → ℕ → List Text
  all_values is_finite none_left depth = []
  all_values is_finite (child f fs) depth =
      values is_finite f depth ++ all_values is_finite fs depth

-- The rendering `r` from `next` and `binds` bound `vs`.
pub Bound : {A : Type 0} → ℕ → List Text → List Text → Rendered A → Type 0
Bound next binds vs r = (r.binds ≡ binds ++ vs) × (r.next ≡ next + length vs)

Bound-none :
    {A : Type 0} (next : ℕ) (binds : List Text) (a : A)
    → Bound next binds [] (record { sql = a; next = next; binds = binds })
unfolding Bound
Bound-none next binds a = (sym (append-nil binds), omega arith)

bind_both-Bound :
    (l : MetaLeaf) (text : Text → Text → Text) (next : ℕ) (binds : List Text)
    → Bound next binds (both_of l) (bind_both l text next binds)
unfolding Bound bind_both bind
bind_both-Bound l text next binds = (append_assoc binds (l.key ∷ []) (l.value ∷ []), omega arith)

Bound-append :
    {A B C : Type 0} (next : ℕ) (binds vs ws : List Text) (r : Rendered A) (s : Rendered B) (c : C)
    → Bound next binds vs r
    → Bound r.next r.binds ws s
    → Bound next binds (vs ++ ws) (record { sql = c; next = s.next; binds = s.binds })
unfolding Bound
Bound-append next binds vs ws r s c h k =
    let long = length-append vs ws in
    (k.0 ∙ ap (λ b. b ++ ws) h.0 ∙ append_assoc binds vs ws, omega (arith, h.1, k.1, long))

module _ (col : Text) (is_finite : Text → Bool) where
  numeric_body-Bound :
      (l : MetaLeaf) (op : Option MetaOp) (finite : Bool) (next : ℕ) (binds : List Text)
      → Bound next binds
          (numeric_values l op finite)
          (numeric_body col is_finite l op finite next binds)
  unfolding numeric_body
  numeric_body-Bound l (some op) true next binds = bind_both-Bound l (numeric_sql col op) next binds
  numeric_body-Bound l (some op) false next binds = Bound-none next binds (codes "false")
  numeric_body-Bound l none finite next binds = Bound-none next binds (codes "false")

  body_of_kind-Bound :
      (l : MetaLeaf) (kind : MetaKind) (next : ℕ) (binds : List Text)
      → Bound next binds
          (values_of_kind is_finite l kind)
          (body_of_kind col is_finite l kind next binds)
  unfolding body_of_kind
  body_of_kind-Bound l equality next binds =
      bind_both-Bound l (equality_sql col l.ignore_case) next binds
  body_of_kind-Bound l numeric next binds = numeric_body-Bound l l.op (is_finite l.value) next binds
  body_of_kind-Bound l array_contains next binds = bind_both-Bound l (array_sql col) next binds
  body_of_kind-Bound l string_contains next binds =
      bind_both-Bound l (string_sql col l.ignore_case) next binds

  mutual
    unfolding to_sql parts_sql values all_values leaf_sql body_sql Bound

    to_sql-Bound :
        (f : MetaFilter) (next : ℕ) (binds : List Text) (depth : ℕ)
        → Bound next binds (values is_finite f depth) (to_sql col is_finite f next binds depth)
    to_sql-Bound (all_of fs) next binds depth =
        elim (Bool-cases (leb meta_filter_max_depth depth)) [
          | inl e ↦ rw e (Bound-none next binds (codes "false"))
          | inr e ↦ rw e (parts_sql-Bound fs next binds (suc depth))
        ]
    to_sql-Bound (any_of fs) next binds depth =
        elim (Bool-cases (leb meta_filter_max_depth depth)) [
          | inl e ↦ rw e (Bound-none next binds (codes "false"))
          | inr e ↦ rw e (parts_sql-Bound fs next binds (suc depth))
        ]
    to_sql-Bound (leaf l) next binds depth = elim (Bool-cases (leb meta_filter_max_depth depth)) [
      | inl e ↦ rw e (Bound-none next binds (codes "false"))
      | inr e ↦ rw e (body_of_kind-Bound l l.kind next binds)
    ]

    parts_sql-Bound :
        (fs : MetaFilters) (next : ℕ) (binds : List Text) (depth : ℕ)
        → Bound next binds
            (all_values is_finite fs depth)
            (parts_sql col is_finite fs next binds depth)
    parts_sql-Bound none_left next binds depth = Bound-none {A = List Text} next binds []
    parts_sql-Bound (child f fs) next binds depth =
        let first = to_sql col is_finite f next binds depth in
        let others = parts_sql col is_finite fs first.next first.binds depth in
        Bound-append {C = List Text} next binds (values is_finite f depth)
          (all_values is_finite fs depth) first others (first.sql ∷ others.sql)
          (to_sql-Bound f next binds depth) (parts_sql-Bound fs first.next first.binds depth)

  -- Rendering binds, after what was bound before, the keys and values of the leaves that are
  -- rendered, in order, and nothing else, and the next number moves on by one for each. Not rendered
  -- are the leaves below the greatest depth, and the numeric ones with no operator or no finite value.
  pub to_sql-values :
      (f : MetaFilter) (next : ℕ) (binds : List Text) (depth : ℕ)
      → let r = to_sql col is_finite f next binds depth in
        (r.binds ≡ binds ++ values is_finite f depth)
        × (r.next ≡ next + length (values is_finite f depth))
  unfolding Bound
  to_sql-values f next binds depth = to_sql-Bound f next binds depth
