-- ===== src/Server/Filter/Leaves.antt =====
-- A leaf that is evaluated in Rust and one in SQL agree, where they read texts and numbers alike.
use pg_mnestic.Prelude.{
  ◌≡◌, refl, ◌∙◌, ap, Bool, true, false, ◌&&◌, not, [], ◌∷◌, map, Option, none, some, if◌then◌else◌,
  ◌==◌,
}
use pg_mnestic.Text.{Text, text_eq, trim, to_ascii_lowercase, eq_ignore_ascii_case}
use pg_mnestic.Json.{Json, null, boolean, number, string, array, object, get_key, contains}
use pg_mnestic.Store.MetaFilter.{
  MetaKind, MetaOp, equality, numeric, array_contains, string_contains,
}
use pg_mnestic.Store.MetaFilter.Meaning.{
  Postgres, coalesce, strict, as_text, array_has, holds_numeric, holds_kind, holds_leaf,
}
use pg_mnestic.Server.Filter.{
  Leaf, kind_of, op_of, to_meta_leaf, json_scalar_string, str_eq, eval_equality,
  eval_array_contains, Floats, eval_string_contains, eval_numeric, both_finite, compare_floats,
  eval_kind, json_as_f64, matches_value, matches_leaf, flag_or_false, exclusive_or,
}

module _ (pg : Postgres) (is_finite : Text → Bool) (floats : Floats)
    (to_lowercase : Text → Text) where
  -- Neither an array nor an object, and if it is a number, Postgres prints it as serde_json does.
  unfoldable pub IsScalar : Option Json → Type 0
  IsScalar none = Unit
  IsScalar (some null) = Unit
  IsScalar (some (boolean b)) = Unit
  IsScalar (some (number n)) = pg.print_number n ≡ n
  IsScalar (some (string s)) = Unit
  IsScalar (some (array js)) = ⊥
  IsScalar (some (object fs)) = ⊥

  -- Postgres lowers the text as Rust does, in the ASCII way or fully.
  abbrev pub LowersAscii : Text → Type 0
  LowersAscii t = pg.lower t ≡ map to_ascii_lowercase t

  abbrev pub LowersAlike : Text → Type 0
  LowersAlike t = pg.lower t ≡ to_lowercase t

  -- Where case is ignored, the two texts lower alike.
  abbrev pub InCase : Bool → (Text → Type 0) → Text → Option Text → Type 0
  InCase false P v t = Unit
  InCase true P v none = Unit
  InCase true P v (some s) = P v × P s

  -- The texts of a numeric comparison are numbers to Postgres where they are finite ones to Rust, and
  -- compare alike.
  unfoldable pub NumbersAgree :
      Option MetaOp → Bool → Text → Option Text → Option floats.F → Option floats.F → Type 0
  NumbersAgree none finite v t x y = Unit
  NumbersAgree (some op) false v t x y = y ≡ none
  NumbersAgree (some op) true v none x y = x ≡ none
  NumbersAgree (some op) true v (some s) none y = pg.is_number s ≡ false
  NumbersAgree (some op) true v (some s) (some a) none = ⊥
  NumbersAgree (some op) true v (some s) (some a) (some b) =
      (pg.is_number s ≡ true)
      × (pg.compare_numeric op s v ≡ compare_floats floats to_lowercase (some op) a b)

  unfoldable pub NumericAgrees : Leaf → Option Json → Type 0
  unfolding NumbersAgree
  NumericAgrees l none = Unit
  NumericAgrees l (some raw) =
      NumbersAgree (op_of l.numeric_operator) (is_finite l.value) l.value (as_text pg (some raw))
        (json_as_f64 floats to_lowercase raw) (floats.parse (trim l.value))

  -- Postgres and Rust read the leaf's texts and numbers alike.
  unfoldable pub IsExactKind : Leaf → Option Json → MetaKind → Type 0
  unfolding NumericAgrees IsScalar
  IsExactKind l j equality =
      IsScalar j × InCase (flag_or_false l.ignore_case) LowersAscii l.value (as_text pg j)
  IsExactKind l j string_contains =
      IsScalar j × InCase (flag_or_false l.ignore_case) LowersAlike l.value (as_text pg j)
  IsExactKind l j array_contains = Unit
  IsExactKind l j numeric = NumericAgrees l j

  -- The comparison in Rust, before `negate`.
  evaluated : Leaf → MetaKind → Option Json → Bool
  evaluated l kind none = false
  evaluated l kind (some raw) = eval_kind floats to_lowercase l raw kind

  scalar_text : (j : Json) → IsScalar (some j) → as_text pg (some j) ≡ json_scalar_string j
  unfolding IsScalar as_text json_scalar_string
  scalar_text null h = refl
  scalar_text (boolean true) h = refl
  scalar_text (boolean false) h = refl
  scalar_text (number n) h = ap some h
  scalar_text (string s) h = refl
  scalar_text (array js) h = absurd h
  scalar_text (object fs) h = absurd h

  text_eq-map_lower :
      (s t : Text)
      → text_eq (map to_ascii_lowercase s) (map to_ascii_lowercase t) ≡ eq_ignore_ascii_case s t
  unfolding text_eq eq_ignore_ascii_case
  text_eq-map_lower [] [] = refl
  text_eq-map_lower [] (d ∷ t) = refl
  text_eq-map_lower (c ∷ s) [] = refl
  text_eq-map_lower (c ∷ s) (d ∷ t) =
      ap (λ b. (to_ascii_lowercase c == to_ascii_lowercase d) && b) (text_eq-map_lower s t)

  exact_equality :
      (ignore : Bool) (v : Text) (o : Option Text)
      → InCase ignore LowersAscii v o
      → (if ignore
          then coalesce (strict (λ s. text_eq (pg.lower s) (pg.lower v)) o)
          else coalesce (strict (λ s. text_eq s v) o))
        ≡ eval_equality o v ignore
  unfolding eval_equality str_eq
  exact_equality true v none h = refl
  exact_equality false v none h = refl
  exact_equality true v (some s) h = rw (h.0, h.1) (text_eq-map_lower s v)
  exact_equality false v (some s) h = refl

  exact_contains :
      (ignore : Bool) (v : Text) (o : Option Text)
      → InCase ignore LowersAlike v o
      → (if ignore
          then coalesce (strict (λ s. contains (pg.lower s) (pg.lower v)) o)
          else coalesce (strict (λ s. contains s v) o))
        ≡ eval_string_contains floats to_lowercase o v ignore
  unfolding eval_string_contains
  exact_contains true v none h = refl
  exact_contains false v none h = refl
  exact_contains true v (some s) h = rw (h.0, h.1) refl
  exact_contains false v (some s) h = refl

  no_equality :
      (ignore : Bool) (v : Text)
      → (if ignore
          then coalesce (strict (λ s. text_eq (pg.lower s) (pg.lower v)) none)
          else coalesce (strict (λ s. text_eq s v) none))
        ≡ false
  no_equality true v = refl
  no_equality false v = refl

  no_contains :
      (ignore : Bool) (v : Text)
      → (if ignore
          then coalesce (strict (λ s. contains (pg.lower s) (pg.lower v)) none)
          else coalesce (strict (λ s. contains s v) none))
        ≡ false
  no_contains true v = refl
  no_contains false v = refl

  exact_array :
      (l : Leaf) (j : Json)
      → coalesce (array_has pg l.value (some j)) ≡ eval_array_contains j l.value
  unfolding array_has eval_array_contains
  exact_array l null = refl
  exact_array l (boolean b) = refl
  exact_array l (number n) = refl
  exact_array l (string s) = refl
  exact_array l (array js) = refl
  exact_array l (object fs) = refl

  exact_numbers :
      (op : Option MetaOp) (finite : Bool) (v : Text) (t : Option Text) (x y : Option floats.F)
      → NumbersAgree op finite v t x y
      → holds_numeric pg op finite v t ≡ both_finite floats to_lowercase op x y
  unfolding holds_numeric both_finite compare_floats NumbersAgree
  exact_numbers none finite v t none y h = refl
  exact_numbers none finite v t (some a) none h = refl
  exact_numbers none finite v t (some a) (some b) h = refl
  exact_numbers (some op) false v t none y h = refl
  exact_numbers (some op) false v t (some a) none h = refl
  exact_numbers (some op) false v t (some a) (some b) h = cc
  exact_numbers (some op) true v none none y h = refl
  exact_numbers (some op) true v none (some a) y h = cc
  exact_numbers (some op) true v (some s) none y h = rw h refl
  exact_numbers (some op) true v (some s) (some a) none h = absurd h
  exact_numbers (some op) true v (some s) (some a) (some b) h = rw h.0 h.1

  no_text :
      (op : Option MetaOp) (finite : Bool) (v : Text) → holds_numeric pg op finite v none ≡ false
  unfolding holds_numeric
  no_text (some op) true v = refl
  no_text (some op) false v = refl
  no_text none finite v = refl

  exact_kind :
      (l : Leaf) (kind : MetaKind) (j : Option Json)
      → IsExactKind l j kind
      → holds_kind pg is_finite (to_meta_leaf l) j kind ≡ evaluated l kind j
  unfolding IsExactKind NumericAgrees holds_kind evaluated eval_kind eval_numeric to_meta_leaf
      as_text array_has
  exact_kind l equality none h = no_equality (flag_or_false l.ignore_case) l.value
  exact_kind l equality (some j) h =
      exact_equality (flag_or_false l.ignore_case) l.value (as_text pg (some j)) h.1
      ∙ ap (λ o. eval_equality o l.value (flag_or_false l.ignore_case)) (scalar_text j h.0)
  exact_kind l string_contains none h = no_contains (flag_or_false l.ignore_case) l.value
  exact_kind l string_contains (some j) h =
      exact_contains (flag_or_false l.ignore_case) l.value (as_text pg (some j)) h.1
      ∙ ap (λ o. eval_string_contains floats to_lowercase o l.value (flag_or_false l.ignore_case))
          (scalar_text j h.0)
  exact_kind l array_contains none h = refl
  exact_kind l array_contains (some j) h = exact_array l j
  exact_kind l numeric none h = no_text (op_of l.numeric_operator) (is_finite l.value) l.value
  exact_kind l numeric (some j) h =
      exact_numbers (op_of l.numeric_operator) (is_finite l.value) l.value (as_text pg (some j))
        (json_as_f64 floats to_lowercase j) (floats.parse (trim l.value)) h

  negate_xor : (n b : Bool) → (if n then not b else b) ≡ exclusive_or b n
  negate_xor true true = refl
  negate_xor true false = refl
  negate_xor false true = refl
  negate_xor false false = refl

  negated_absent : (n : Bool) → (if n then true else false) ≡ n
  negated_absent true = refl
  negated_absent false = refl

  pub exact_leaf :
      (l : Leaf) (metadata : Json)
      → IsExactKind l (get_key l.key metadata) (kind_of l.filter_type)
      → holds_leaf pg is_finite (to_meta_leaf l) metadata
        ≡ matches_leaf floats to_lowercase l metadata
  unfolding holds_leaf matches_leaf evaluated matches_value to_meta_leaf
  exact_leaf l metadata h =
      ap (λ b. if flag_or_false l.negate then not b else b)
        (exact_kind l (kind_of l.filter_type) (get_key l.key metadata) h)
      ∙ found (get_key l.key metadata)
    where
      found :
          (j : Option Json)
          → (if flag_or_false l.negate
              then not (evaluated l (kind_of l.filter_type) j)
              else evaluated l (kind_of l.filter_type) j)
            ≡ matches_value floats to_lowercase l j
      found none = negated_absent (flag_or_false l.negate)
      found (some raw) =
          negate_xor (flag_or_false l.negate)
            (eval_kind floats to_lowercase l raw (kind_of l.filter_type))
