-- ===== src/Server/Tests.antt =====
-- Container tags and the rate limiter on small inputs.
use pg_mnestic.Prelude.{
  ℕ, ◌+◌, ◌-◌, ◌*◌, ◌≤◌, ◌≡◌, refl, List, [], ◌∷◌, arith, none, some, true, false, ltb, map, length,
}
use pg_mnestic.Text.{
  Text, codes, text_eq, split, to_ascii_lowercase, eq_ignore_ascii_case, trim, trim_matches,
  trim_start_matches, trim_end_matches, is_whitespace,
}
use pg_mnestic.Json.{
  Json, string, number, array, object, end, item, no_more, field, get_key, find_field, has_string,
}
use pg_mnestic.Store.MetaFilter.Meaning.{Postgres}
use pg_mnestic.Server.Filter.{
  FilterNode, leaf_node, and_node, no_nodes, node, Floats, kind_of, matches, matches_at,
  matches_leaf, matches_value, eval_kind, eval_array_contains, eval_equality, str_eq,
  json_scalar_string, eval_numeric, both_finite, compare_floats, op_of, json_as_f64,
}
use pg_mnestic.Server.ContainerTag.{
  parse_container_tag, reconstruct_container_tag, scope_of_segments, scope_of_last_two,
  split_last_two, pair_up,
}
use pg_mnestic.Server.ContainerTag.RoundTrip.{reconstruct-parse_container_tag}
use pg_mnestic.Server.RateLimit.{per_minute, token, find_bucket, allow}
use pg_mnestic.Server.RateLimit.Buckets.{allow_other}
use pg_mnestic.Server.RateLimit.Budget.{allowed, Ordered, end_time, allowed-le}

parse_org_user :
    parse_container_tag (codes "org:acme:user:alice")
    ≡ record { actor_id = codes "user:alice"; container_tags = codes "org:acme" ∷ [] }
unfolding parse_container_tag scope_of_segments scope_of_last_two split_last_two pair_up split
    text_eq
parse_org_user = refl

reconstruct-parse_container_tag_example :
    reconstruct_container_tag (parse_container_tag (codes "org:acme:user:alice"))
    ≡ codes "org:acme:user:alice"
reconstruct-parse_container_tag_example =
    reconstruct-parse_container_tag (codes "org:acme:user:alice")

allow_other_example :
    find_bucket (codes "k2") (allow 5 (codes "k1") (per_minute 3)).1.buckets
    ≡ find_bucket (codes "k2") (per_minute 3).buckets
unfolding text_eq
allow_other_example = allow_other 5 (codes "k1") (codes "k2") (per_minute 3) refl

abbrev requests : List (ℕ × Text)
requests = (1, codes "k1") ∷ (2, codes "k2") ∷ (30000000003, codes "k1") ∷ []

allowed-le_example :
    allowed (codes "k1") requests (per_minute 1) * token ≤ 1 * token + (30000000003 - 0) * 1
unfolding Ordered end_time
allowed-le_example =
    allowed-le (codes "k1") requests 0 1 (omega arith)
      (omega arith, (omega arith, (omega arith, tt)))

abbrev tags_filter : FilterNode
tags_filter = and_node (
    node
      (leaf_node record {
        key = codes "tags";
        value = codes "x";
        filter_type = some (codes "array_contains");
        numeric_operator = none;
        negate = none;
        ignore_case = none;
      })
      (node
        (leaf_node record {
          key = codes "lang";
          value = codes "en";
          filter_type = none;
          numeric_operator = none;
          negate = some true;
          ignore_case = some true;
        })
        (node
          (leaf_node record {
            key = codes "n";
            value = codes "111";
            filter_type = some (codes "numeric");
            numeric_operator = some (codes "<");
            negate = none;
            ignore_case = none;
          })
          no_nodes)))

abbrev tagged : Json
tagged = object (
    field (codes "tags") (array (item (string (codes "x")) end)) (
      field (codes "lang") (string (codes "DE")) (field (codes "n") (number (codes "11")) no_more)))

-- A server and a program whose numbers are written in unary.
abbrev postgres : Postgres
postgres = record {
  print_number = λ n. n;
  print_nested = λ j. [];
  lower = map to_ascii_lowercase;
  is_number = λ t. true;
  compare_numeric = λ op a b. ltb (length a) (length b);
}

abbrev floats : Floats
floats = record {
  F = ℕ;
  of_number = λ n. some (length n);
  parse = λ t. some (length t);
  less = ltb;
  same = λ a b. false;
}

matches-tagged : matches floats (λ t. t) tags_filter tagged ≡ true
unfolding matches matches_at matches_leaf matches_value eval_kind eval_array_contains eval_equality
    eval_numeric both_finite compare_floats op_of json_as_f64 str_eq eq_ignore_ascii_case
    json_scalar_string get_key find_field kind_of text_eq has_string trim trim_matches
    trim_start_matches trim_end_matches is_whitespace
matches-tagged = refl
