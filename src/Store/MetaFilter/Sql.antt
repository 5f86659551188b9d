-- ===== src/Store/MetaFilter/Sql.antt =====
-- The fragment of SQL that filters are rendered to: its text, and what Postgres computes for it.
use pg_mnestic.Prelude.{ℕ, Bool, true, false, not, ◌∷◌, ◌++◌, Option, none, some}
use pg_mnestic.Text.{Text, codes, text_eq}
use pg_mnestic.Json.{
  Json, null, boolean, number, string, array, object, get_key, find_field, has_string, contains,
}
use pg_mnestic.Store.MetaFilter.{MetaOp, op_sql, decimal, number_shape}
use pg_mnestic.Store.MetaFilter.Meaning.{Postgres, as_text, strict}

-- `$n`, `col ->> $n`, `lower(t)` and `(t)`.
pub data TextExpr : Type 0 where
  arg at_key : ℕ → TextExpr
  lowered grouped_text : TextExpr → TextExpr

pub data BoolExpr : Type 0 where
  literal : Bool → BoolExpr
  equals : TextExpr → TextExpr → BoolExpr
  -- `strpos(s, t) > 0`.
  found : TextExpr → TextExpr → BoolExpr
  -- `t ~ number_shape`.
  shaped : TextExpr → BoolExpr
  -- `s::numeric op t::numeric`.
  compares : MetaOp → TextExpr → TextExpr → BoolExpr
  -- `jsonb_typeof(col -> $n) = 'array'`.
  is_array : ℕ → BoolExpr
  -- `jsonb_exists(col -> $n, $m)`.
  has_element : ℕ → ℕ → BoolExpr
  both either : BoolExpr → BoolExpr → BoolExpr
  negation : BoolExpr → BoolExpr
  -- `COALESCE(b, false)`.
  coalesced : BoolExpr → BoolExpr
  grouped : BoolExpr → BoolExpr

-- `$n`.
abbrev pub placeholder : ℕ → Text
placeholder n = b'$' ∷ decimal n

module _ (col : Text) where
  unfoldable pub print_text : TextExpr → Text
  print_text (arg n) = placeholder n
  print_text (at_key n) = col ++ (codes " ->> " ++ placeholder n)
  print_text (lowered t) = codes "lower(" ++ (print_text t ++ codes ")")
  print_text (grouped_text t) = codes "(" ++ (print_text t ++ codes ")")

  unfoldable pub print : BoolExpr → Text
  unfolding print_text
  print (literal true) = codes "true"
  print (literal false) = codes "false"
  print (equals s t) = print_text s ++ (codes " = " ++ print_text t)
  print (found s t) =
      codes "strpos(" ++ (print_text s ++ (codes ", " ++ (print_text t ++ codes ") > 0")))
  print (shaped t) = print_text t ++ (codes " ~ " ++ number_shape)
  print (compares op s t) =
      print_text s
      ++ (codes "::numeric " ++ (op_sql op ++ (codes " " ++ (print_text t ++ codes "::numeric"))))
  print (is_array n) =
      codes "jsonb_typeof(" ++ (col ++ (codes " -> " ++ (placeholder n ++ codes ") = 'array'")))
  print (has_element n m) =
      codes "jsonb_exists("
      ++ (col ++ (codes " -> " ++ (placeholder n ++ (codes ", " ++ (placeholder m ++ codes ")")))))
  print (both a b) = print a ++ (codes " AND " ++ print b)
  print (either a b) = print a ++ (codes " OR " ++ print b)
  print (negation b) = codes "NOT (" ++ (print b ++ codes ")")
  print (coalesced b) = codes "COALESCE(" ++ (print b ++ codes ", false)")
  print (grouped b) = codes "(" ++ (print b ++ codes ")")

-- AND, OR and NOT of SQL, where `none` is NULL.
unfoldable pub sql_and : Option Bool → Option Bool → Option Bool
sql_and (some true) b = b
sql_and (some false) b = some false
sql_and none (some false) = some false
sql_and none (some true) = none
sql_and none none = none

unfoldable pub sql_or : Option Bool → Option Bool → Option Bool
sql_or (some true) b = some true
sql_or (some false) b = b
sql_or none (some true) = some true
sql_or none (some false) = none
sql_or none none = none

unfoldable pub sql_not : Option Bool → Option Bool
sql_not none = none
sql_not (some b) = some (not b)

unfoldable pub sql_coalesce : Option Bool → Option Bool
sql_coalesce none = some false
sql_coalesce (some b) = some b

-- A function of two texts, which is NULL where one of them is.
unfoldable pub strict2 : (Text → Text → Bool) → Option Text → Option Text → Option Bool
strict2 p none t = none
strict2 p (some s) none = none
strict2 p (some s) (some t) = some (p s t)

unfoldable pub typeof_array : Option Json → Option Bool
typeof_array none = none
typeof_array (some (array js)) = some true
typeof_array (some j) = some false

abbrev pub is_some : Option Json → Bool
is_some none = false
is_some (some j) = true

-- `jsonb_exists`: a string of an array, a key of an object, or the string itself.
unfoldable pub json_exists : Option Json → Option Text → Option Bool
json_exists none t = none
json_exists (some j) none = none
json_exists (some (array js)) (some t) = some (has_string t js)
json_exists (some (object fs)) (some t) = some (is_some (find_field t fs))
json_exists (some (string s)) (some t) = some (text_eq s t)
json_exists (some null) (some t) = some false
json_exists (some (boolean b)) (some t) = some false
json_exists (some (number n)) (some t) = some false

-- The values of the parameters `$n`, and the metadata of the row.
module _ (pg : Postgres) (args : ℕ → Option Text) (metadata : Json) where
  -- `col -> k`.
  unfoldable pub at_json : Option Text → Option Json
  at_json none = none
  at_json (some k) = get_key k metadata

  unfoldable pub lower_text : Option Text → Option Text
  lower_text none = none
  lower_text (some t) = some (pg.lower t)

  unfoldable pub eval_text : TextExpr → Option Text
  unfolding at_json lower_text as_text
  eval_text (arg n) = args n
  eval_text (at_key n) = as_text pg (at_json (args n))
  eval_text (lowered t) = lower_text (eval_text t)
  eval_text (grouped_text t) = eval_text t

  unfoldable pub eval : BoolExpr → Option Bool
  unfolding eval_text sql_and sql_or sql_not sql_coalesce strict2 typeof_array json_exists
  eval (literal b) = some b
  eval (equals s t) = strict2 text_eq (eval_text s) (eval_text t)
  eval (found s t) = strict2 contains (eval_text s) (eval_text t)
  eval (shaped t) = strict pg.is_number (eval_text t)
  eval (compares op s t) = strict2 (pg.compare_numeric op) (eval_text s) (eval_text t)
  eval (is_array n) = typeof_array (at_json (args n))
  eval (has_element n m) = json_exists (at_json (args n)) (args m)
  eval (both a b) = sql_and (eval a) (eval b)
  eval (either a b) = sql_or (eval a) (eval b)
  eval (negation b) = sql_not (eval b)
  eval (coalesced b) = sql_coalesce (eval b)
  eval (grouped b) = eval b
