-- ===== src/Store/MetaFilter/LeafValue.antt =====
-- The value that Postgres computes for a rendered leaf.
use pg_mnestic.Prelude.{
  ℕ, ◌+◌, ◌≡◌, refl, ap, Bool, true, false, ◌&&◌, not, Option, none, some, if◌then◌else◌,
  Bool-cases, inl, inr,
}
use pg_mnestic.Text.{Text, text_eq}
use pg_mnestic.Json.{Json, null, boolean, number, string, array, object, get_key, contains}
use pg_mnestic.Store.MetaFilter.{
  MetaKind, MetaOp, MetaLeaf, equality, numeric, array_contains, string_contains,
}
use pg_mnestic.Store.MetaFilter.Meaning.{
  Postgres, coalesce, strict, as_text, array_has, holds_numeric, holds_kind,
}
use pg_mnestic.Store.MetaFilter.Binds.{values_of_kind, numeric_values}
use pg_mnestic.Store.MetaFilter.Sql.{
  BoolExpr, sql_and, sql_not, sql_coalesce, strict2, typeof_array, json_exists, at_json, lower_text,
  eval_text, eval,
}
use pg_mnestic.Store.MetaFilter.Print.{
  equality_expr, string_expr, numeric_expr, array_expr, expr_of_kind, negated_expr,
}
use pg_mnestic.Store.MetaFilter.Placed.{StandAt}

strict2-coalesce :
    (p : Text → Text → Bool) (v : Text) (t : Option Text)
    → sql_coalesce (strict2 p t (some v)) ≡ some (coalesce (strict (λ s. p s v) t))
unfolding sql_coalesce strict2
strict2-coalesce p v none = refl
strict2-coalesce p v (some s) = refl

module _ (pg : Postgres) (is_finite : Text → Bool) (args : ℕ → Option Text) (metadata : Json) where
  lowered-coalesce :
      (p : Text → Text → Bool) (v : Text) (t : Option Text)
      → sql_coalesce (strict2 p (lower_text pg args metadata t) (some (pg.lower v)))
        ≡ some (coalesce (strict (λ s. p (pg.lower s) (pg.lower v)) t))
  unfolding sql_coalesce strict2 lower_text
  lowered-coalesce p v none = refl
  lowered-coalesce p v (some s) = refl

  numeric-coalesce :
      (op : MetaOp) (v : Text) (t : Option Text)
      → sql_coalesce (sql_and (strict pg.is_number t) (strict2 (pg.compare_numeric op) t (some v)))
        ≡ some (coalesce (strict (λ s. pg.is_number s && pg.compare_numeric op s v) t))
  unfolding sql_coalesce sql_and strict2
  numeric-coalesce op v none = refl
  numeric-coalesce op v (some s) = elim (Bool-cases (pg.is_number s)) [
    | inl e ↦ rw e refl
    | inr e ↦ rw e refl
  ]

  array-coalesce :
      (v : Text) (j : Option Json)
      → sql_coalesce (sql_and (typeof_array j) (json_exists j (some v)))
        ≡ some (coalesce (array_has pg v j))
  unfolding sql_coalesce sql_and typeof_array json_exists array_has
  array-coalesce v none = refl
  array-coalesce v (some null) = refl
  array-coalesce v (some (boolean b)) = refl
  array-coalesce v (some (number n)) = refl
  array-coalesce v (some (string s)) = refl
  array-coalesce v (some (array js)) = refl
  array-coalesce v (some (object fs)) = refl

  module _ (l : MetaLeaf) (next : ℕ) (key : args next ≡ some l.key)
      (value : args (next + 1) ≡ some l.value) where
    eval-equality_expr :
        (ignore : Bool)
        → eval pg args metadata (equality_expr ignore next)
          ≡ some (
              if ignore
              then coalesce (
                  strict
                    (λ s. text_eq (pg.lower s) (pg.lower l.value))
                    (as_text pg (get_key l.key metadata)))
              else coalesce (strict (λ s. text_eq s l.value) (as_text pg (get_key l.key metadata))))
    unfolding eval equality_expr eval_text at_json lower_text
    eval-equality_expr true =
        rw (key, value) (lowered-coalesce text_eq l.value (as_text pg (get_key l.key metadata)))
    eval-equality_expr false =
        rw (key, value) (strict2-coalesce text_eq l.value (as_text pg (get_key l.key metadata)))

    eval-string_expr :
        (ignore : Bool)
        → eval pg args metadata (string_expr ignore next)
          ≡ some (
              if ignore
              then coalesce (
                  strict
                    (λ s. contains (pg.lower s) (pg.lower l.value))
                    (as_text pg (get_key l.key metadata)))
              else coalesce
                  (strict (λ s. contains s l.value) (as_text pg (get_key l.key metadata))))
    unfolding eval string_expr eval_text at_json lower_text
    eval-string_expr true =
        rw (key, value) (lowered-coalesce contains l.value (as_text pg (get_key l.key metadata)))
    eval-string_expr false =
        rw (key, value) (strict2-coalesce contains l.value (as_text pg (get_key l.key metadata)))

    eval-numeric_expr :
        (op : MetaOp)
        → eval pg args metadata (numeric_expr (some op) true next)
          ≡ some (holds_numeric pg (some op) true l.value (as_text pg (get_key l.key metadata)))
    unfolding eval numeric_expr eval_text at_json holds_numeric
    eval-numeric_expr op =
        rw (key, value) (numeric-coalesce op l.value (as_text pg (get_key l.key metadata)))

    eval-array_expr :
        eval pg args metadata (array_expr next)
        ≡ some (coalesce (array_has pg l.value (get_key l.key metadata)))
    unfolding eval array_expr at_json
    eval-array_expr = rw (key, value) (array-coalesce l.value (get_key l.key metadata))

  eval-numeric :
      (l : MetaLeaf) (next : ℕ) (op : Option MetaOp) (finite : Bool)
      → StandAt args next (numeric_values l op finite)
      → eval pg args metadata (numeric_expr op finite next)
        ≡ some (holds_numeric pg op finite l.value (as_text pg (get_key l.key metadata)))
  unfolding StandAt holds_numeric eval numeric_expr
  eval-numeric l next (some op) true h = eval-numeric_expr l next h.0 h.1.0 op
  eval-numeric l next (some op) false h = refl
  eval-numeric l next none finite h = refl

  pub eval-expr_of_kind :
      (l : MetaLeaf) (next : ℕ) (kind : MetaKind)
      → StandAt args next (values_of_kind is_finite l kind)
      → eval pg args metadata (expr_of_kind is_finite l kind next)
        ≡ some (holds_kind pg is_finite l (get_key l.key metadata) kind)
  unfolding StandAt expr_of_kind holds_kind
  eval-expr_of_kind l next equality h = eval-equality_expr l next h.0 h.1.0 l.ignore_case
  eval-expr_of_kind l next numeric h = eval-numeric l next l.op (is_finite l.value) h
  eval-expr_of_kind l next array_contains h = eval-array_expr l next h.0 h.1.0
  eval-expr_of_kind l next string_contains h = eval-string_expr l next h.0 h.1.0 l.ignore_case

  pub eval-negated_expr :
      (negate : Bool) (e : BoolExpr) (b : Bool)
      → eval pg args metadata e ≡ some b
      → eval pg args metadata (negated_expr negate e) ≡ some (if negate then not b else b)
  unfolding eval negated_expr sql_not
  eval-negated_expr true e b h = ap sql_not h
  eval-negated_expr false e b h = h
