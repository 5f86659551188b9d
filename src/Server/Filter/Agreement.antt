-- ===== src/Server/Filter/Agreement.antt =====
-- The filter that is evaluated in Rust and the SQL text that it is rendered to agree.
use pg_mnestic.Prelude.{ℕ, suc, ◌≡◌, refl, ap, Bool, true, false, ◌||◌, leb, if◌then◌else◌}
use pg_mnestic.Text.{Text}
use pg_mnestic.Json.{Json, get_key}
use pg_mnestic.Store.MetaFilter.Meaning.{Postgres, holds, all_hold, any_hold, is_none_left}
use pg_mnestic.Server.Filter.{
  FilterNode, FilterNodes, or_node, and_node, leaf_node, no_nodes, node, kind_of, to_meta_filter,
  to_meta_filters, Floats, matches_at, any_match, all_match, max_depth, is_empty_nodes,
}
use pg_mnestic.Server.Filter.Leaves.{IsExactKind, exact_leaf}

module _ (pg : Postgres) (is_finite : Text → Bool) (floats : Floats)
    (to_lowercase : Text → Text) where
  unfoldable mutual
    unfolding IsExactKind

    pub IsExact : FilterNode → Json → Type 0
    IsExact (or_node ns) metadata = AreExact ns metadata
    IsExact (and_node ns) metadata = AreExact ns metadata
    IsExact (leaf_node l) metadata =
        IsExactKind pg is_finite floats to_lowercase l (get_key l.key metadata)
          (kind_of l.filter_type)

    pub AreExact : FilterNodes → Json → Type 0
    AreExact no_nodes metadata = Unit
    AreExact (node n ns) metadata = IsExact n metadata × AreExact ns metadata

  mutual
    unfolding IsExact to_meta_filter holds matches_at

    holds-matches_at :
        (n : FilterNode) (metadata : Json) (depth : ℕ)
        → IsExact n metadata
        → holds pg is_finite (to_meta_filter n) metadata depth
          ≡ matches_at floats to_lowercase n metadata depth
    holds-matches_at (or_node ns) metadata depth h =
        let ih = any_hold-any_match ns metadata (suc depth) h in
        ap (λ b. if leb max_depth depth then false else b) (some_or_empty ns metadata depth ih)
    holds-matches_at (and_node ns) metadata depth h =
        let ih = all_hold-all_match ns metadata (suc depth) h in
        ap (λ b. if leb max_depth depth then false else b) (all_or_empty ns metadata depth ih)
    holds-matches_at (leaf_node l) metadata depth h =
        ap (λ b. if leb max_depth depth then false else b)
          (exact_leaf pg is_finite floats to_lowercase l metadata h)

    some_or_empty :
        (ns : FilterNodes) (metadata : Json) (depth : ℕ)
        → any_hold pg is_finite (to_meta_filters ns) metadata (suc depth)
          ≡ any_match floats to_lowercase ns metadata (suc depth)
        → (if is_none_left pg is_finite (to_meta_filters ns)
            then true
            else any_hold pg is_finite (to_meta_filters ns) metadata (suc depth))
          ≡ (is_empty_nodes ns || any_match floats to_lowercase ns metadata (suc depth))
    some_or_empty no_nodes metadata depth h = refl
    some_or_empty (node n ns) metadata depth h = h

    all_or_empty :
        (ns : FilterNodes) (metadata : Json) (depth : ℕ)
        → all_hold pg is_finite (to_meta_filters ns) metadata (suc depth)
          ≡ all_match floats to_lowercase ns metadata (suc depth)
        → (if is_none_left pg is_finite (to_meta_filters ns)
            then true
            else all_hold pg is_finite (to_meta_filters ns) metadata (suc depth))
          ≡ all_match floats to_lowercase ns metadata (suc depth)
    all_or_empty no_nodes metadata depth h = refl
    all_or_empty (node n ns) metadata depth h = h

    any_hold-any_match :
        (ns : FilterNodes) (metadata : Json) (depth : ℕ)
        → AreExact ns metadata
        → any_hold pg is_finite (to_meta_filters ns) metadata depth
          ≡ any_match floats to_lowercase ns metadata depth
    any_hold-any_match no_nodes metadata depth h = refl
    any_hold-any_match (node n ns) metadata depth h =
        rw (holds-matches_at n metadata depth h.0, any_hold-any_match ns metadata depth h.1) refl

    all_hold-all_match :
        (ns : FilterNodes) (metadata : Json) (depth : ℕ)
        → AreExact ns metadata
        → all_hold pg is_finite (to_meta_filters ns) metadata depth
          ≡ all_match floats to_lowercase ns metadata depth
    all_hold-all_match no_nodes metadata depth h = refl
    all_hold-all_match (node n ns) metadata depth h =
        rw (holds-matches_at n metadata depth h.0, all_hold-all_match ns metadata depth h.1) refl
