-- ===== src/Store/Tests.antt =====
-- The metadata filter on small inputs.
use pg_mnestic.Prelude.{◌+◌, ◌≡◌, refl, Bool, false, [], ◌++◌, none, length}
use pg_mnestic.Text.{Text, codes}
use pg_mnestic.Store.MetaFilter.{
  MetaLeaf, equality, all_of, leaf, none_left, child, to_sql, parts_sql, leaf_sql, body_sql,
  body_of_kind, bind_both, bind, decimal, decimal_up_to, equality_sql,
}
use pg_mnestic.Store.MetaFilter.Binds.{values, to_sql-values}
use pg_mnestic.Store.MetaFilter.Shape.{leaf_same, to_sql-SameShape}

abbrev key_is : Text → Text → MetaLeaf
key_is key value = record {
  key = key;
  value = value;
  kind = equality;
  op = none;
  negate = false;
  ignore_case = false;
}

abbrev never : Text → Bool
never value = false

equality_text :
    (to_sql (codes "metadata") never (leaf (key_is (codes "k") (codes "v"))) 7 [] 0).sql
    ≡ codes "COALESCE((metadata ->> $7) = $8, false)"
unfolding to_sql parts_sql leaf_sql body_sql body_of_kind bind_both bind decimal decimal_up_to
    equality_sql
equality_text = refl

to_sql-values_example :
    let f = all_of (
      child
        (leaf (key_is (codes "k") (codes "v")))
        (child (leaf (key_is (codes "a") (codes "b"))) none_left)) in
    let r = to_sql (codes "metadata") never f 7 [] 0 in
    (r.binds ≡ [] ++ values never f 0) × (r.next ≡ 7 + length (values never f 0))
to_sql-values_example =
    to_sql-values (codes "metadata") never
      (all_of (
        child (leaf (key_is (codes "k") (codes "v")))
          (child (leaf (key_is (codes "a") (codes "b"))) none_left)))
      7 [] 0

to_sql-SameShape_example :
    (to_sql (codes "metadata") never (leaf (key_is (codes "k") (codes "v"))) 7 [] 0).sql
    ≡ (to_sql
        (codes "metadata")
        never
        (leaf (key_is (codes "k") (codes "x' OR true --")))
        7
        []
        0).sql
to_sql-SameShape_example =
    to_sql-SameShape (codes "metadata") never (leaf (key_is (codes "k") (codes "v")))
      (leaf (key_is (codes "k") (codes "x' OR true --"))) 7 [] [] 0
      (leaf_same
        (record { kind = refl; op = refl; negate = refl; ignore_case = refl; finite = refl }))
