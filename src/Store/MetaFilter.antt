-- ===== src/Store/MetaFilter.antt =====
-- The metadata filter of crates/mnestic-store/src/lib.rs, rendered to SQL text with its binds.
pub mod Binds
pub mod Shape
pub mod Meaning
pub mod Sql
pub mod Print
pub mod Placed
pub mod LeafValue
pub mod Value
use pg_mnestic.Prelude.{
  ℕ, zero, suc, ◌+◌, ◌/◌, ◌%◌, Bool, true, false, List, [], ◌∷◌, ◌++◌, Option, none, some, ltb, leb,
  if◌then◌else◌,
}
use pg_mnestic.Text.{Text, codes, join}

pub data MetaKind : Type 0 where
  equality numeric array_contains string_contains : MetaKind

pub data MetaOp : Type 0 where
  gt lt ge le eq : MetaOp

-- `MetaOp::sql`.
unfoldable pub op_sql : MetaOp → Text
op_sql gt = codes ">"
op_sql lt = codes "<"
op_sql ge = codes ">="
op_sql le = codes "<="
op_sql eq = codes "="

pub record MetaLeaf : Type 0 where
  pub key : Text
  pub value : Text
  pub kind : MetaKind
  pub op : Option MetaOp
  pub negate : Bool
  pub ignore_case : Bool

mutual
  pub data MetaFilter : Type 0 where
    all_of : MetaFilters → MetaFilter
    any_of : MetaFilters → MetaFilter
    leaf : MetaLeaf → MetaFilter

  pub data MetaFilters : Type 0 where
    none_left : MetaFilters
    child : MetaFilter → MetaFilters → MetaFilters

-- `META_FILTER_MAX_DEPTH`.
abbrev pub meta_filter_max_depth : ℕ
meta_filter_max_depth = 16

-- What a rendering returns, with `next` and `binds` after it.
pub record Rendered (A : Type 0) : Type 0 where
  pub sql : A
  pub next : ℕ
  pub binds : List Text

-- The decimal digits of a number.
unfoldable pub decimal_up_to : ℕ → ℕ → Text
decimal_up_to zero n = []
decimal_up_to (suc fuel) n =
    let front = decimal_up_to fuel (n / 10) in
    if ltb n 10 then (b'0' + n) ∷ [] else front ++ (b'0' + n % 10) ∷ []

unfoldable pub decimal : ℕ → Text
unfolding decimal_up_to
decimal n = decimal_up_to (suc n) n

-- `bind`.
unfoldable pub bind : Text → ℕ → List Text → Rendered Text
bind value next binds = record {
  sql = b'$' ∷ decimal next;
  next = next + 1;
  binds = binds ++ value ∷ [];
}

-- The key's bind, then the value's, and the text that uses them.
unfoldable pub bind_both : MetaLeaf → (Text → Text → Text) → ℕ → List Text → Rendered Text
unfolding bind
bind_both l text next binds =
    let k = bind l.key next binds in
    let v = bind l.value k.next k.binds in
    record { sql = text k.sql v.sql; next = v.next; binds = v.binds }

unfoldable pub equality_sql : Text → Bool → Text → Text → Text
equality_sql col true k v =
    codes "COALESCE(lower("
    ++ (col ++ (codes " ->> " ++ (k ++ (codes ") = lower(" ++ (v ++ codes "), false)")))))
equality_sql col false k v =
    codes "COALESCE(("
    ++ (col ++ (codes " ->> " ++ (k ++ (codes ") = " ++ (v ++ codes ", false)")))))

abbrev pub number_shape : Text
number_shape = codes "'^[+-]?([0-9]+(\\.[0-9]*)?|\\.[0-9]+)([eE][+-]?[0-9]+)?$'"

unfoldable pub numeric_sql : Text → MetaOp → Text → Text → Text
unfolding op_sql
numeric_sql col op k v =
    codes "COALESCE(("
    ++ (col
        ++ (codes " ->> "
            ++ (k
                ++ (codes ") ~ "
                    ++ (number_shape
                        ++ (codes " AND ("
                            ++ (col
                                ++ (codes " ->> "
                                    ++ (k
                                        ++ (codes ")::numeric "
                                            ++ (op_sql op
                                                ++ (codes " ("
                                                    ++ (v ++ codes ")::numeric, false)")))))))))))))

unfoldable pub array_sql : Text → Text → Text → Text
array_sql col k v =
    codes "COALESCE(jsonb_typeof("
    ++ (col
        ++ (codes " -> "
            ++ (k
                ++ (codes ") = 'array' AND jsonb_exists("
                    ++ (col
                        ++ (codes " -> " ++ (k ++ (codes ", " ++ (v ++ codes "), false)")))))))))

unfoldable pub string_sql : Text → Bool → Text → Text → Text
string_sql col true k v =
    codes "COALESCE(strpos(lower("
    ++ (col ++ (codes " ->> " ++ (k ++ (codes "), lower(" ++ (v ++ codes ")) > 0, false)")))))
string_sql col false k v =
    codes "COALESCE(strpos("
    ++ (col ++ (codes " ->> " ++ (k ++ (codes ", " ++ (v ++ codes ") > 0, false)")))))

-- A text that binds nothing.
abbrev pub constant : {A : Type 0} → A → ℕ → List Text → Rendered A
constant sql next binds = record { sql = sql; next = next; binds = binds }

-- `col`, and whether `value.trim().parse::<f64>()` is a finite number.
module _ (col : Text) (is_finite : Text → Bool) where
  unfoldable pub numeric_body : MetaLeaf → Option MetaOp → Bool → ℕ → List Text → Rendered Text
  unfolding bind_both numeric_sql
  numeric_body l (some op) true next binds = bind_both l (numeric_sql col op) next binds
  numeric_body l (some op) false next binds = constant (codes "false") next binds
  numeric_body l none finite next binds = constant (codes "false") next binds

  -- `MetaLeaf::body_sql`.
  unfoldable pub body_of_kind : MetaLeaf → MetaKind → ℕ → List Text → Rendered Text
  unfolding numeric_body bind_both equality_sql array_sql string_sql
  body_of_kind l equality next binds = bind_both l (equality_sql col l.ignore_case) next binds
  body_of_kind l numeric next binds = numeric_body l l.op (is_finite l.value) next binds
  body_of_kind l array_contains next binds = bind_both l (array_sql col) next binds
  body_of_kind l string_contains next binds = bind_both l (string_sql col l.ignore_case) next binds

  unfoldable pub body_sql : MetaLeaf → ℕ → List Text → Rendered Text
  unfolding body_of_kind
  body_sql l next binds = body_of_kind l l.kind next binds

  abbrev pub negated : Bool → Text → Text
  negated true body = codes "NOT (" ++ (body ++ codes ")")
  negated false body = body

  -- `MetaLeaf::to_sql`.
  unfoldable pub leaf_sql : MetaLeaf → ℕ → List Text → Rendered Text
  unfolding body_sql
  leaf_sql l next binds =
      let body = body_sql l next binds in
      record { sql = negated l.negate body.sql; next = body.next; binds = body.binds }

  -- The text of `combine`, from its parts.
  abbrev pub combined : Text → List Text → Text
  combined joiner [] = codes "true"
  combined joiner (p ∷ ps) = codes "(" ++ (join joiner (p ∷ ps) ++ codes ")")

  abbrev pub combine : Text → Rendered (List Text) → Rendered Text
  combine joiner parts = record {
    sql = combined joiner parts.sql;
    next = parts.next;
    binds = parts.binds;
  }

  -- `MetaFilter::to_sql` and the loop of `combine`.
  unfoldable mutual
    unfolding leaf_sql

    pub to_sql : MetaFilter → ℕ → List Text → ℕ → Rendered Text
    to_sql (all_of children) next binds depth =
        let parts = parts_sql children next binds (suc depth) in
        if leb meta_filter_max_depth depth
        then constant (codes "false") next binds
        else combine (codes " AND ") parts
    to_sql (any_of children) next binds depth =
        let parts = parts_sql children next binds (suc depth) in
        if leb meta_filter_max_depth depth
        then constant (codes "false") next binds
        else combine (codes " OR ") parts
    to_sql (leaf l) next binds depth =
        if leb meta_filter_max_depth depth
        then constant (codes "false") next binds
        else leaf_sql l next binds

    pub parts_sql : MetaFilters → ℕ → List Text → ℕ → Rendered (List Text)
    parts_sql none_left next binds depth = constant [] next binds
    parts_sql (child f fs) next binds depth =
        let first = to_sql f next binds depth in
        let others = parts_sql fs first.next first.binds depth in
        record { sql = first.sql ∷ others.sql; next = others.next; binds = others.binds }
