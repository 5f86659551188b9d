-- ===== src/Store/MetaFilter/Value.antt =====
-- The value that Postgres computes for a rendered filter is what the filter means.
use pg_mnestic.Prelude.{
  ℕ, suc, ◌+◌, ◌≡◌, refl, sym, ◌∙◌, subst, Bool, true, false, ◌&&◌, ◌||◌, List, [], ◌++◌, Option,
  some, leb, if◌then◌else◌, length, arith, Bool-cases, inl, inr,
}
use pg_mnestic.Text.{Text}
use pg_mnestic.Json.{Json, get_key}
use pg_mnestic.Store.MetaFilter.{
  MetaFilter, MetaFilters, all_of, any_of, leaf, none_left, child, meta_filter_max_depth,
}
use pg_mnestic.Store.MetaFilter.Meaning.{
  Postgres, holds_kind, holds_leaf, holds, all_hold, any_hold, is_none_left,
}
use pg_mnestic.Store.MetaFilter.Binds.{values, all_values}
use pg_mnestic.Store.MetaFilter.Sql.{sql_and, sql_or, eval}
use pg_mnestic.Store.MetaFilter.Print.{
  expr_of_kind, conjunction, disjunction, combined_expr, expr_of, exprs_of,
}
use pg_mnestic.Store.MetaFilter.Placed.{
  bound_at, StandAt, StandAt-left, StandAt-right, bound_at-StandAt,
}
use pg_mnestic.Store.MetaFilter.LeafValue.{eval-expr_of_kind, eval-negated_expr}

module _ (pg : Postgres) (is_finite : Text → Bool) (args : ℕ → Option Text) (metadata : Json) where
  &&-true : (b : Bool) → some b ≡ some (b && true)
  &&-true true = refl
  &&-true false = refl

  ||-false : (b : Bool) → some b ≡ some (b || false)
  ||-false true = refl
  ||-false false = refl

  sql_and-some : (a b : Bool) → sql_and (some a) (some b) ≡ some (a && b)
  unfolding sql_and
  sql_and-some true b = refl
  sql_and-some false b = refl

  sql_or-some : (a b : Bool) → sql_or (some a) (some b) ≡ some (a || b)
  unfolding sql_or
  sql_or-some true b = refl
  sql_or-some false b = refl

  grouped-all :
      (fs : MetaFilters) (next depth : ℕ)
      → eval pg args metadata (conjunction (exprs_of is_finite fs next depth))
        ≡ some (all_hold pg is_finite fs metadata depth)
      → eval pg args metadata (combined_expr conjunction (exprs_of is_finite fs next depth))
        ≡ some
            (if is_none_left pg is_finite fs then true else all_hold pg is_finite fs metadata depth)
  unfolding exprs_of eval combined_expr
  grouped-all none_left next depth h = refl
  grouped-all (child f fs) next depth h = h

  grouped-any :
      (fs : MetaFilters) (next depth : ℕ)
      → eval pg args metadata (disjunction (exprs_of is_finite fs next depth))
        ≡ some (any_hold pg is_finite fs metadata depth)
      → eval pg args metadata (combined_expr disjunction (exprs_of is_finite fs next depth))
        ≡ some
            (if is_none_left pg is_finite fs then true else any_hold pg is_finite fs metadata depth)
  unfolding exprs_of eval combined_expr
  grouped-any none_left next depth h = refl
  grouped-any (child f fs) next depth h = h

  mutual
    unfolding expr_of exprs_of values all_values holds all_hold any_hold eval holds_leaf conjunction
        disjunction combined_expr

    eval-expr_of :
        (f : MetaFilter) (next depth : ℕ)
        → StandAt args next (values is_finite f depth)
        → eval pg args metadata (expr_of is_finite f next depth)
          ≡ some (holds pg is_finite f metadata depth)
    eval-expr_of (all_of fs) next depth h = elim (Bool-cases (leb meta_filter_max_depth depth)) [
      | inl e ↦ rw e refl
      | inr e ↦
          rw e (grouped-all fs next (suc depth) (eval-conjunction fs next (suc depth) (rw e at h)))
    ]
    eval-expr_of (any_of fs) next depth h = elim (Bool-cases (leb meta_filter_max_depth depth)) [
      | inl e ↦ rw e refl
      | inr e ↦
          rw e (grouped-any fs next (suc depth) (eval-disjunction fs next (suc depth) (rw e at h)))
    ]
    eval-expr_of (leaf l) next depth h = elim (Bool-cases (leb meta_filter_max_depth depth)) [
      | inl e ↦ rw e refl
      | inr e ↦ rw e (
          eval-negated_expr pg is_finite args metadata l.negate
            (expr_of_kind is_finite l l.kind next)
            (holds_kind pg is_finite l (get_key l.key metadata) l.kind)
            (eval-expr_of_kind pg is_finite args metadata l next l.kind (rw e at h)))
    ]

    eval-conjunction :
        (fs : MetaFilters) (next depth : ℕ)
        → StandAt args next (all_values is_finite fs depth)
        → eval pg args metadata (conjunction (exprs_of is_finite fs next depth))
          ≡ some (all_hold pg is_finite fs metadata depth)
    eval-conjunction none_left next depth h = refl
    eval-conjunction (child f none_left) next depth h =
        eval-expr_of f next depth (StandAt-left args next (values is_finite f depth) [] h)
        ∙ &&-true (holds pg is_finite f metadata depth)
    eval-conjunction (child f (child g gs)) next depth h =
        let vs = values is_finite f depth in
        let ws = all_values is_finite (child g gs) depth in
        rw
          (
            eval-expr_of f next depth (StandAt-left args next vs ws h),
            eval-conjunction (child g gs) (next + length vs) depth
                (StandAt-right args next vs ws h),
          )
          (sql_and-some _ _)

    eval-disjunction :
        (fs : MetaFilters) (next depth : ℕ)
        → StandAt args next (all_values is_finite fs depth)
        → eval pg args metadata (disjunction (exprs_of is_finite fs next depth))
          ≡ some (any_hold pg is_finite fs metadata depth)
    eval-disjunction none_left next depth h = refl
    eval-disjunction (child f none_left) next depth h =
        eval-expr_of f next depth (StandAt-left args next (values is_finite f depth) [] h)
        ∙ ||-false (holds pg is_finite f metadata depth)
    eval-disjunction (child f (child g gs)) next depth h =
        let vs = values is_finite f depth in
        let ws = all_values is_finite (child g gs) depth in
        rw
          (
            eval-expr_of f next depth (StandAt-left args next vs ws h),
            eval-disjunction (child g gs) (next + length vs) depth
                (StandAt-right args next vs ws h),
          )
          (sql_or-some _ _)

-- With its own binds as the parameters, the expression of a filter has the value that the filter
-- means.
pub eval-expr_of_lem :
    (pg : Postgres) (is_finite : Text → Bool) (f : MetaFilter) (first : ℕ) (binds : List Text)
    (metadata : Json)
    → binds ≡ [] ++ values is_finite f 0
    → eval pg (bound_at first binds) metadata (expr_of is_finite f first 0)
      ≡ some (holds pg is_finite f metadata 0)
eval-expr_of_lem pg is_finite f first binds metadata h =
    eval-expr_of pg is_finite (bound_at first binds) metadata f first 0 (
      subst (λ bs. StandAt (bound_at first bs) first (values is_finite f 0)) (sym h)
        (bound_at-StandAt first first [] (values is_finite f 0) (omega arith)))
