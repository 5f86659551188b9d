-- ===== src/Server/ContainerTag.antt =====
-- crates/mnestic-server/src/container_tag.rs.
pub mod RoundTrip
use pg_mnestic.Prelude.{
  ℕ, zero, suc, ◌+◌, ◌-◌, Bool, true, false, List, [], ◌∷◌, ◌++◌, is_empty, if◌then◌else◌,
}
use pg_mnestic.Text.{Text, codes, text_eq, split, join}

pub record Scope : Type 0 where
  pub actor_id : Text
  pub container_tags : List Text

abbrev pub colon : ℕ
colon = b':'

abbrev pub user_prefix : Text
user_prefix = codes "user"

-- `format!("{}:{}", a, b)`.
abbrev pub pair : Text → Text → Text
pair a b = a ++ (colon ∷ b)

-- `pair_up`: consecutive segments in pairs, a lone last one as it is.
unfoldable pub pair_up : List Text → List Text
pair_up [] = []
pair_up (s ∷ []) = s ∷ []
pair_up (s ∷ t ∷ segments) = pair s t ∷ pair_up segments

-- `segments[..n - 2]`, `segments[n - 2]` and `segments[n - 1]` of two segments and more.
unfoldable pub split_last_two : Text → Text → List Text → List Text × Text × Text
split_last_two s t [] = ([], s, t)
split_last_two s t (u ∷ segments) =
    let (front, a, b) = split_last_two t u segments in (s ∷ front, a, b)

unfoldable pub scope_of_last_two : List Text × Text × Text → Scope
unfolding pair_up
scope_of_last_two (front, a, b) =
    if text_eq a user_prefix
    then record { actor_id = pair user_prefix b; container_tags = pair_up front }
    else record { actor_id = b; container_tags = front ++ a ∷ [] }

unfoldable pub scope_of_segments : Text → List Text → Scope
unfolding split_last_two scope_of_last_two
scope_of_segments tag [] = record { actor_id = tag; container_tags = [] }
scope_of_segments tag (s ∷ []) = record { actor_id = tag; container_tags = [] }
scope_of_segments tag (s ∷ t ∷ segments) = scope_of_last_two (split_last_two s t segments)

unfoldable pub parse_container_tag : Text → Scope
unfolding scope_of_segments split
parse_container_tag tag = scope_of_segments tag (split colon tag)

unfoldable pub reconstruct_container_tag : Scope → Text
unfolding join
reconstruct_container_tag scope =
    if is_empty scope.container_tags
    then scope.actor_id
    else join (colon ∷ []) (scope.container_tags ++ scope.actor_id ∷ [])
