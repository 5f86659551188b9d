-- ===== src/Store/MetaFilter/Meaning.antt =====
-- What a filter means on the metadata of a row, with the functions of Postgres that its text calls.
use pg_mnestic.Prelude.{
  ℕ, suc, Bool, true, false, ◌&&◌, ◌||◌, not, Option, none, some, leb, if◌then◌else◌,
}
use pg_mnestic.Text.{Text, codes, text_eq}
use pg_mnestic.Json.{
  Json, null, boolean, number, string, array, object, get_key, has_string, contains,
}
use pg_mnestic.Store.MetaFilter.{
  MetaKind, MetaOp, MetaLeaf, MetaFilter, MetaFilters, equality, numeric, array_contains,
  string_contains, all_of, any_of, leaf, none_left, child, meta_filter_max_depth,
}

-- The functions of Postgres that the text calls: how `->>` prints a number, an array or an object,
-- `lower`, the shape of a number, and the comparison of two texts cast to numeric.
pub record Postgres : Type 0 where
  pub print_number : Text → Text
  pub print_nested : Json → Text
  pub lower : Text → Text
  pub is_number : Text → Bool
  pub compare_numeric : MetaOp → Text → Text → Bool

-- `COALESCE(e, false)`.
abbrev pub coalesce : Option Bool → Bool
coalesce none = false
coalesce (some b) = b

abbrev pub strict : (Text → Bool) → Option Text → Option Bool
strict p none = none
strict p (some s) = some (p s)

module _ (pg : Postgres) where
  open pg use {print_number, print_nested, lower, is_number, compare_numeric}

  -- `metadata ->> k`, of the value at the key.
  unfoldable pub as_text : Option Json → Option Text
  as_text none = none
  as_text (some null) = none
  as_text (some (boolean true)) = some (codes "true")
  as_text (some (boolean false)) = some (codes "false")
  as_text (some (number n)) = some (print_number n)
  as_text (some (string s)) = some s
  as_text (some (array js)) = some (print_nested (array js))
  as_text (some (object fs)) = some (print_nested (object fs))

  -- `jsonb_typeof(j) = 'array' AND jsonb_exists(j, v)`.
  unfoldable pub array_has : Text → Option Json → Option Bool
  array_has v none = none
  array_has v (some (array js)) = some (has_string v js)
  array_has v (some j) = some false

  unfoldable pub holds_numeric : Option MetaOp → Bool → Text → Option Text → Bool
  holds_numeric (some op) true v t =
      coalesce (strict (λ s. is_number s && compare_numeric op s v) t)
  holds_numeric (some op) false v t = false
  holds_numeric none finite v t = false

  module _ (is_finite : Text → Bool) where
    unfoldable pub holds_kind : MetaLeaf → Option Json → MetaKind → Bool
    unfolding as_text array_has holds_numeric
    holds_kind l j equality =
        if l.ignore_case
        then coalesce (strict (λ s. text_eq (lower s) (lower l.value)) (as_text j))
        else coalesce (strict (λ s. text_eq s l.value) (as_text j))
    holds_kind l j numeric = holds_numeric l.op (is_finite l.value) l.value (as_text j)
    holds_kind l j array_contains = coalesce (array_has l.value j)
    holds_kind l j string_contains =
        if l.ignore_case
        then coalesce (strict (λ s. contains (lower s) (lower l.value)) (as_text j))
        else coalesce (strict (λ s. contains s l.value) (as_text j))

    unfoldable pub holds_leaf : MetaLeaf → Json → Bool
    unfolding holds_kind
    holds_leaf l metadata =
        let body = holds_kind l (get_key l.key metadata) l.kind in
        if l.negate then not body else body

    abbrev pub is_none_left : MetaFilters → Bool
    is_none_left none_left = true
    is_none_left (child f fs) = false

    -- The expression's value; a filter too deep is the literal `false`, an empty combiner `true`.
    unfoldable mutual
      unfolding holds_leaf

      pub holds : MetaFilter → Json → ℕ → Bool
      holds (all_of fs) metadata depth =
          let children = all_hold fs metadata (suc depth) in
          if leb meta_filter_max_depth depth
          then false
          else if is_none_left fs
          then true
          else children
      holds (any_of fs) metadata depth =
          let children = any_hold fs metadata (suc depth) in
          if leb meta_filter_max_depth depth
          then false
          else if is_none_left fs
          then true
          else children
      holds (leaf l) metadata depth =
          if leb meta_filter_max_depth depth then false else holds_leaf l metadata

      pub all_hold : MetaFilters → Json → ℕ → Bool
      all_hold none_left metadata depth = true
      all_hold (child f fs) metadata depth = holds f metadata depth && all_hold fs metadata depth

      pub any_hold : MetaFilters → Json → ℕ → Bool
      any_hold none_left metadata depth = false
      any_hold (child f fs) metadata depth = holds f metadata depth || any_hold fs metadata depth
