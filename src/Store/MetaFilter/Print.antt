-- ===== src/Store/MetaFilter/Print.antt =====
-- A rendered filter is the text of an expression.
use pg_mnestic.Prelude.{
  ℕ, suc, ◌+◌, ◌≡◌, refl, sym, ◌∙◌, ap, Bool, true, false, List, [], ◌∷◌, ◌++◌, append_assoc, map,
  Option, none, some, leb, if◌then◌else◌, length, Bool-cases, inl, inr,
}
use pg_mnestic.Text.{Text, codes, join}
use pg_mnestic.Store.MetaFilter.{
  MetaKind, MetaOp, MetaLeaf, MetaFilter, MetaFilters, equality, numeric, array_contains,
  string_contains, all_of, any_of, leaf, none_left, child, meta_filter_max_depth, bind, bind_both,
  numeric_body, body_of_kind, body_sql, leaf_sql, to_sql, parts_sql, numeric_sql, equality_sql,
  array_sql, string_sql, combined, negated,
}
use pg_mnestic.Store.MetaFilter.Binds.{values, to_sql-values}
use pg_mnestic.Store.MetaFilter.Sql.{
  BoolExpr, arg, at_key, lowered, grouped_text, literal, equals, found, shaped, compares, is_array,
  has_element, both, either, negation, coalesced, grouped, print,
}

-- The expression of a leaf's kind, whose arguments have the numbers `next` and the one after it.
unfoldable pub equality_expr : Bool → ℕ → BoolExpr
equality_expr true next = coalesced (equals (lowered (at_key next)) (lowered (arg (next + 1))))
equality_expr false next = coalesced (equals (grouped_text (at_key next)) (arg (next + 1)))

unfoldable pub string_expr : Bool → ℕ → BoolExpr
string_expr true next = coalesced (found (lowered (at_key next)) (lowered (arg (next + 1))))
string_expr false next = coalesced (found (at_key next) (arg (next + 1)))

unfoldable pub numeric_expr : Option MetaOp → Bool → ℕ → BoolExpr
numeric_expr (some op) true next = coalesced (
    both (shaped (grouped_text (at_key next)))
      (compares op (grouped_text (at_key next)) (grouped_text (arg (next + 1)))))
numeric_expr (some op) false next = literal false
numeric_expr none finite next = literal false

unfoldable pub array_expr : ℕ → BoolExpr
array_expr next = coalesced (both (is_array next) (has_element next (next + 1)))

unfoldable pub expr_of_kind : (Text → Bool) → MetaLeaf → MetaKind → ℕ → BoolExpr
unfolding equality_expr string_expr numeric_expr array_expr
expr_of_kind is_finite l equality next = equality_expr l.ignore_case next
expr_of_kind is_finite l numeric next = numeric_expr l.op (is_finite l.value) next
expr_of_kind is_finite l array_contains next = array_expr next
expr_of_kind is_finite l string_contains next = string_expr l.ignore_case next

unfoldable pub negated_expr : Bool → BoolExpr → BoolExpr
negated_expr true b = negation b
negated_expr false b = b

unfoldable pub conjunction : List BoolExpr → BoolExpr
conjunction [] = literal true
conjunction (e ∷ []) = e
conjunction (e ∷ e' ∷ es) = both e (conjunction (e' ∷ es))

unfoldable pub disjunction : List BoolExpr → BoolExpr
disjunction [] = literal false
disjunction (e ∷ []) = e
disjunction (e ∷ e' ∷ es) = either e (disjunction (e' ∷ es))

unfoldable pub combined_expr : (List BoolExpr → BoolExpr) → List BoolExpr → BoolExpr
combined_expr joined [] = literal true
combined_expr joined (e ∷ es) = grouped (joined (e ∷ es))

module _ (is_finite : Text → Bool) where
  unfoldable mutual
    unfolding negated_expr expr_of_kind combined_expr conjunction disjunction

    pub expr_of : MetaFilter → ℕ → ℕ → BoolExpr
    expr_of (all_of fs) next depth =
        if leb meta_filter_max_depth depth
        then literal false
        else combined_expr conjunction (exprs_of fs next (suc depth))
    expr_of (any_of fs) next depth =
        if leb meta_filter_max_depth depth
        then literal false
        else combined_expr disjunction (exprs_of fs next (suc depth))
    expr_of (leaf l) next depth =
        if leb meta_filter_max_depth depth
        then literal false
        else negated_expr l.negate (expr_of_kind is_finite l l.kind next)

    pub exprs_of : MetaFilters → ℕ → ℕ → List BoolExpr
    exprs_of none_left next depth = []
    exprs_of (child f fs) next depth =
        expr_of f next depth ∷ exprs_of fs (next + length (values is_finite f depth)) depth

  module _ (col : Text) where
    print-equality_expr :
        (l : MetaLeaf) (ignore : Bool) (next : ℕ) (binds : List Text)
        → print col (equality_expr ignore next)
          ≡ (bind_both l (equality_sql col ignore) next binds).sql
    unfolding print equality_expr bind_both bind equality_sql
    print-equality_expr l true next binds = simp append_assoc
    print-equality_expr l false next binds = simp append_assoc

    print-string_expr :
        (l : MetaLeaf) (ignore : Bool) (next : ℕ) (binds : List Text)
        → print col (string_expr ignore next) ≡ (bind_both l (string_sql col ignore) next binds).sql
    unfolding print string_expr bind_both bind string_sql
    print-string_expr l true next binds = simp append_assoc
    print-string_expr l false next binds = simp append_assoc

    print-array_expr :
        (l : MetaLeaf) (next : ℕ) (binds : List Text)
        → print col (array_expr next) ≡ (bind_both l (array_sql col) next binds).sql
    unfolding print array_expr bind_both bind array_sql
    print-array_expr l next binds = simp append_assoc

    print-numeric_expr :
        (l : MetaLeaf) (op : Option MetaOp) (finite : Bool) (next : ℕ) (binds : List Text)
        → print col (numeric_expr op finite next)
          ≡ (numeric_body col is_finite l op finite next binds).sql
    unfolding print numeric_expr numeric_body bind_both bind numeric_sql
    print-numeric_expr l (some op) true next binds = simp append_assoc
    print-numeric_expr l (some op) false next binds = refl
    print-numeric_expr l none finite next binds = refl

    print-expr_of_kind :
        (l : MetaLeaf) (kind : MetaKind) (next : ℕ) (binds : List Text)
        → print col (expr_of_kind is_finite l kind next)
          ≡ (body_of_kind col is_finite l kind next binds).sql
    unfolding expr_of_kind body_of_kind
    print-expr_of_kind l equality next binds = print-equality_expr l l.ignore_case next binds
    print-expr_of_kind l numeric next binds =
        print-numeric_expr l l.op (is_finite l.value) next binds
    print-expr_of_kind l array_contains next binds = print-array_expr l next binds
    print-expr_of_kind l string_contains next binds = print-string_expr l l.ignore_case next binds

    print-negated_expr :
        (negate : Bool) (b : BoolExpr)
        → print col (negated_expr negate b) ≡ negated col is_finite negate (print col b)
    unfolding print negated_expr
    print-negated_expr true b = refl
    print-negated_expr false b = refl

    print-conjunction :
        (e : BoolExpr) (es : List BoolExpr)
        → print col (conjunction (e ∷ es)) ≡ join (codes " AND ") (map (print col) (e ∷ es))
    unfolding print conjunction join
    print-conjunction e [] = refl
    print-conjunction e (e' ∷ es) =
        ap (λ t. print col e ++ (codes " AND " ++ t)) (print-conjunction e' es)

    print-disjunction :
        (e : BoolExpr) (es : List BoolExpr)
        → print col (disjunction (e ∷ es)) ≡ join (codes " OR ") (map (print col) (e ∷ es))
    unfolding print disjunction join
    print-disjunction e [] = refl
    print-disjunction e (e' ∷ es) =
        ap (λ t. print col e ++ (codes " OR " ++ t)) (print-disjunction e' es)

    print-combined_expr :
        (joined : List BoolExpr → BoolExpr) (joiner : Text)
        → ((e : BoolExpr) (es : List BoolExpr)
            → print col (joined (e ∷ es)) ≡ join joiner (map (print col) (e ∷ es)))
        → (es : List BoolExpr) (parts : List Text) → map (print col) es ≡ parts
        → print col (combined_expr joined es) ≡ combined col is_finite joiner parts
    unfolding print combined_expr
    print-combined_expr joined joiner same [] parts h = ap (combined col is_finite joiner) h
    print-combined_expr joined joiner same (e ∷ es) parts h =
        ap (λ t. codes "(" ++ (t ++ codes ")")) (same e es) ∙ ap (combined col is_finite joiner) h

    mutual
      unfolding expr_of exprs_of to_sql parts_sql leaf_sql body_sql print

      print-expr_of :
          (f : MetaFilter) (next : ℕ) (binds : List Text) (depth : ℕ)
          → print col (expr_of f next depth) ≡ (to_sql col is_finite f next binds depth).sql
      print-expr_of (all_of fs) next binds depth =
          elim (Bool-cases (leb meta_filter_max_depth depth)) [
            | inl e ↦ rw e refl
            | inr e ↦ rw e (
                print-combined_expr conjunction (codes " AND ") print-conjunction
                  (exprs_of fs next (suc depth)) _ (print-exprs_of fs next binds (suc depth)))
          ]
      print-expr_of (any_of fs) next binds depth =
          elim (Bool-cases (leb meta_filter_max_depth depth)) [
            | inl e ↦ rw e refl
            | inr e ↦ rw e (
                print-combined_expr disjunction (codes " OR ") print-disjunction
                  (exprs_of fs next (suc depth)) _ (print-exprs_of fs next binds (suc depth)))
          ]
      print-expr_of (leaf l) next binds depth =
          elim (Bool-cases (leb meta_filter_max_depth depth)) [
            | inl e ↦ rw e refl
            | inr e ↦ rw e (
                print-negated_expr l.negate (expr_of_kind is_finite l l.kind next)
                ∙ ap (negated col is_finite l.negate) (print-expr_of_kind l l.kind next binds))
          ]

      print-exprs_of :
          (fs : MetaFilters) (next : ℕ) (binds : List Text) (depth : ℕ)
          → map (print col) (exprs_of fs next depth)
            ≡ (parts_sql col is_finite fs next binds depth).sql
      print-exprs_of none_left next binds depth = refl
      print-exprs_of (child f fs) next binds depth =
          let first = to_sql col is_finite f next binds depth in
          let after = (to_sql-values col is_finite f next binds depth).1 in
          ap
            (λ t.
              t ∷ map (print col) (exprs_of fs (next + length (values is_finite f depth)) depth))
            (print-expr_of f next binds depth)
          ∙ ap (λ n. first.sql ∷ map (print col) (exprs_of fs n depth)) (sym after)
          ∙ ap (λ ts. first.sql ∷ ts) (print-exprs_of fs first.next first.binds depth)

    -- The text of a rendered filter is that of its expression.
    pub print-expr_of_lem :
        (f : MetaFilter) (next : ℕ) (binds : List Text) (depth : ℕ)
        → print col (expr_of f next depth) ≡ (to_sql col is_finite f next binds depth).sql
    print-expr_of_lem f next binds depth = print-expr_of f next binds depth
