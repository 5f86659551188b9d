-- ===== src/Server/Filter.antt =====
-- crates/mnestic-server/src/filter.rs: the filter tree of a request, evaluated in Rust, and its
-- conversion to the store's.
pub mod Leaves
pub mod Agreement
use pg_mnestic.Prelude.{
  ℕ, suc, Bool, true, false, ◌&&◌, ◌||◌, not, List, [], ◌∷◌, Option, none, some, leb, if◌then◌else◌,
}
use pg_mnestic.Text.{Text, codes, text_eq, trim, eq_ignore_ascii_case}
use pg_mnestic.Json.{
  Json, null, boolean, number, string, array, object, Items, get_key, has_string, contains,
}
use pg_mnestic.Store.MetaFilter.{
  MetaKind, MetaOp, MetaLeaf, MetaFilter, MetaFilters, equality, numeric, array_contains,
  string_contains, gt, lt, ge, le, eq, all_of, any_of, leaf, none_left, child,
}

pub record Leaf : Type 0 where
  pub key : Text
  pub value : Text
  pub filter_type : Option Text
  pub numeric_operator : Option Text
  pub negate : Option Bool
  pub ignore_case : Option Bool

mutual
  pub data FilterNode : Type 0 where
    or_node : FilterNodes → FilterNode
    and_node : FilterNodes → FilterNode
    leaf_node : Leaf → FilterNode

  pub data FilterNodes : Type 0 where
    no_nodes : FilterNodes
    node : FilterNode → FilterNodes → FilterNodes

-- `de_loose_bool`: a boolean, "true" or "false"; any other value reads as unset.
unfoldable pub de_loose_bool : Option Json → Option Bool
de_loose_bool none = none
de_loose_bool (some (boolean b)) = some b
de_loose_bool (some (string s)) =
    if text_eq s (codes "true")
    then some true
    else if text_eq s (codes "false")
    then some false
    else none
de_loose_bool (some _) = none

abbrev pub max_depth : ℕ
max_depth = 16

-- `unwrap_or(false)`.
abbrev pub flag_or_false : Option Bool → Bool
flag_or_false none = false
flag_or_false (some b) = b

-- The kind that `filterType` names; all else is equality.
unfoldable pub kind_of : Option Text → MetaKind
kind_of none = equality
kind_of (some t) =
    if text_eq t (codes "numeric")
    then numeric
    else if text_eq t (codes "array_contains")
    then array_contains
    else if text_eq t (codes "string_contains")
    then string_contains
    else equality

-- The operator that `numericOperator` names.
unfoldable pub op_of : Option Text → Option MetaOp
op_of none = none
op_of (some t) =
    if text_eq t (codes ">")
    then some gt
    else if text_eq t (codes "<")
    then some lt
    else if text_eq t (codes ">=")
    then some ge
    else if text_eq t (codes "<=")
    then some le
    else if text_eq t (codes "=")
    then some eq
    else none

unfoldable pub to_meta_leaf : Leaf → MetaLeaf
unfolding kind_of op_of
to_meta_leaf l = record {
  key = l.key;
  value = l.value;
  kind = kind_of l.filter_type;
  op = op_of l.numeric_operator;
  negate = flag_or_false l.negate;
  ignore_case = flag_or_false l.ignore_case;
}

-- `to_meta_filter`.
unfoldable mutual
  unfolding to_meta_leaf

  pub to_meta_filter : FilterNode → MetaFilter
  to_meta_filter (or_node ns) = any_of (to_meta_filters ns)
  to_meta_filter (and_node ns) = all_of (to_meta_filters ns)
  to_meta_filter (leaf_node l) = leaf (to_meta_leaf l)

  pub to_meta_filters : FilterNodes → MetaFilters
  to_meta_filters no_nodes = none_left
  to_meta_filters (node n ns) = child (to_meta_filter n) (to_meta_filters ns)

-- `json_scalar_string`.
unfoldable pub json_scalar_string : Json → Option Text
json_scalar_string (string s) = some s
json_scalar_string (number n) = some n
json_scalar_string (boolean true) = some (codes "true")
json_scalar_string (boolean false) = some (codes "false")
json_scalar_string _ = none

-- `str_eq`.
unfoldable pub str_eq : Text → Text → Bool → Bool
str_eq a b true = eq_ignore_ascii_case a b
str_eq a b false = text_eq a b

-- `eval_equality`, from the scalar text.
unfoldable pub eval_equality : Option Text → Text → Bool → Bool
unfolding str_eq
eval_equality none value ignore_case = false
eval_equality (some s) value ignore_case = str_eq s value ignore_case

-- `eval_array_contains`.
unfoldable pub eval_array_contains : Json → Text → Bool
eval_array_contains (array items) value = has_string value items
eval_array_contains _ value = false

abbrev pub is_empty_nodes : FilterNodes → Bool
is_empty_nodes no_nodes = true
is_empty_nodes (node n ns) = false

-- `a ^ b` of two booleans.
abbrev pub exclusive_or : Bool → Bool → Bool
exclusive_or true b = not b
exclusive_or false b = b

-- What the standard library does with f64: the value of a JSON number's text, of a text, and the
-- comparisons. The values are finite: a text of infinity or NaN has none.
pub record Floats : Type 1 where
  pub F : Type 0
  pub of_number : Text → Option F
  pub parse : Text → Option F
  pub less : F → F → Bool
  pub same : F → F → Bool

module _ (floats : Floats) (to_lowercase : Text → Text) where
  open floats use {F, of_number, parse, less, same}

  -- `eval_string_contains`, from the scalar text.
  unfoldable pub eval_string_contains : Option Text → Text → Bool → Bool
  eval_string_contains none value ignore_case = false
  eval_string_contains (some s) value true = contains (to_lowercase s) (to_lowercase value)
  eval_string_contains (some s) value false = contains s value

  -- `json_as_f64`, of the finite ones.
  unfoldable pub json_as_f64 : Json → Option F
  json_as_f64 (number n) = of_number n
  json_as_f64 (string s) = parse (trim s)
  json_as_f64 _ = none

  unfoldable pub compare_floats : Option MetaOp → F → F → Bool
  compare_floats (some gt) a b = less b a
  compare_floats (some lt) a b = less a b
  compare_floats (some ge) a b = less b a || same a b
  compare_floats (some le) a b = less a b || same a b
  compare_floats (some eq) a b = same a b
  compare_floats none a b = false

  unfoldable pub both_finite : Option MetaOp → Option F → Option F → Bool
  unfolding compare_floats
  both_finite op (some a) (some b) = compare_floats op a b
  both_finite op (some a) none = false
  both_finite op none b = false

  -- `eval_numeric`.
  unfoldable pub eval_numeric : Json → Text → Option Text → Bool
  unfolding both_finite json_as_f64 op_of
  eval_numeric raw value op = both_finite (op_of op) (json_as_f64 raw) (parse (trim value))

  unfoldable pub eval_kind : Leaf → Json → MetaKind → Bool
  unfolding eval_numeric eval_array_contains eval_string_contains eval_equality json_scalar_string
  eval_kind l raw numeric = eval_numeric raw l.value l.numeric_operator
  eval_kind l raw array_contains = eval_array_contains raw l.value
  eval_kind l raw string_contains =
      eval_string_contains (json_scalar_string raw) l.value (flag_or_false l.ignore_case)
  eval_kind l raw equality =
      eval_equality (json_scalar_string raw) l.value (flag_or_false l.ignore_case)

  unfoldable pub matches_value : Leaf → Option Json → Bool
  unfolding eval_kind kind_of
  matches_value l none = flag_or_false l.negate
  matches_value l (some raw) =
      exclusive_or (eval_kind l raw (kind_of l.filter_type)) (flag_or_false l.negate)

  -- `matches_leaf`.
  unfoldable pub matches_leaf : Leaf → Json → Bool
  unfolding matches_value
  matches_leaf l metadata = matches_value l (get_key l.key metadata)

  -- `matches_at`, and its `any` and `all`.
  unfoldable mutual
    unfolding matches_leaf

    pub matches_at : FilterNode → Json → ℕ → Bool
    matches_at (or_node ns) metadata depth =
        let some_child = any_match ns metadata (suc depth) in
        if leb max_depth depth then false else is_empty_nodes ns || some_child
    matches_at (and_node ns) metadata depth =
        let all_children = all_match ns metadata (suc depth) in
        if leb max_depth depth then false else all_children
    matches_at (leaf_node l) metadata depth =
        if leb max_depth depth then false else matches_leaf l metadata

    pub any_match : FilterNodes → Json → ℕ → Bool
    any_match no_nodes metadata depth = false
    any_match (node n ns) metadata depth =
        matches_at n metadata depth || any_match ns metadata depth

    pub all_match : FilterNodes → Json → ℕ → Bool
    all_match no_nodes metadata depth = true
    all_match (node n ns) metadata depth =
        matches_at n metadata depth && all_match ns metadata depth

  -- `matches`.
  unfoldable pub matches : FilterNode → Json → Bool
  unfolding matches_at
  matches n metadata = matches_at n metadata 0
