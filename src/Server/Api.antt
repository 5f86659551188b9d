-- ===== src/Server/Api.antt =====
-- crates/mnestic-server/src/error.rs, and the request fields that the handlers share
-- (crates/mnestic-server/src/lib.rs).
pub mod Tags
use pg_mnestic.Prelude.{
  ℕ, ◌*◌, min, max, Bool, true, false, ◌&&◌, ◌||◌, not, List, [], ◌∷◌, Option, none, some, ltb, leb,
  ◌==◌, if◌then◌else◌, is_empty, length, all, ℤ, pos, negsuc,
}
use pg_mnestic.Text.{Text, codes, trim}
use pg_mnestic.Store.Db.{Error, Result, ok, err}

pub data ApiError : Type 0 where
  unauthorized : ApiError
  bad_request : Text → ApiError
  not_found : ApiError
  too_many_requests : ApiError
  internal : Error → ApiError

-- `into_response`: the status and the message of the body.
unfoldable pub into_response : ApiError → ℕ × Text
into_response unauthorized = (401, codes "unauthorized")
into_response (bad_request m) = (400, m)
into_response not_found = (404, codes "not found")
into_response too_many_requests = (429, codes "rate limit exceeded")
into_response (internal e) = (500, codes "internal error")

pub data ApiResult (A : Type 0) : Type 0 where
  done : A → ApiResult A
  failed : ApiError → ApiResult A

infixl 5 ◌>>=◌
abbrev pub ◌>>=◌ : {A B : Type 0} → ApiResult A → (A → ApiResult B) → ApiResult B
done a >>= f = f a
failed e >>= f = failed e

abbrev pub of_engine : {A : Type 0} → Result A → ApiResult A
of_engine (ok a) = done a
of_engine (err e) = failed (internal e)

abbrev pub default_limit : ℕ
default_limit = 10

abbrev pub max_limit : ℕ
max_limit = 100

-- `clamp_limit`.
unfoldable pub clamp_limit : Option ℤ → ℕ
clamp_limit none = default_limit
clamp_limit (some (pos n)) = min (max n 1) max_limit
clamp_limit (some (negsuc n)) = 1

-- `filter_pool`: the product of a clamped limit does not saturate.
unfoldable pub filter_pool : ℕ → ℕ
filter_pool limit = min (limit * 4) 200

-- `b.is_ascii_alphanumeric() || matches!(b, b'_' | b':' | b'-')`; of the bytes of a character beyond
-- ASCII none passes.
unfoldable pub is_tag_char : ℕ → Bool
is_tag_char c =
    (leb b'0' c && leb c b'9')
    || (leb b'A' c && leb c b'Z')
    || (leb b'a' c && leb c b'z')
    || c == b'_'
    || c == b':'
    || c == b'-'

-- `validate_container_tag`.
unfoldable pub validate_container_tag : Text → ApiResult (Unit {0})
unfolding is_tag_char
validate_container_tag tag =
    if is_empty tag || ltb 100 (length tag)
    then failed (bad_request (codes "containerTag must be 1 to 100 characters"))
    else if not (all is_tag_char tag)
    then failed (bad_request (codes "containerTag allows only letters, digits, '_', ':', '-'"))
    else done tt

-- The arms of the `match` on the plural field.
unfoldable pub pick_plural : Option (List Text) → ApiResult Text
pick_plural none = failed (bad_request (codes "containerTag is required"))
pick_plural (some []) = failed (bad_request (codes "containerTag is required"))
pick_plural (some (t ∷ [])) =
    if is_empty t then failed (bad_request (codes "containerTag is required")) else done t
pick_plural (some (t ∷ u ∷ ts)) =
    failed (bad_request (codes "multiple containerTags is not supported yet"))

unfoldable pub pick_tag : Option Text → Option (List Text) → ApiResult Text
unfolding pick_plural
pick_tag none plural = pick_plural plural
pick_tag (some t) plural = if is_empty t then pick_plural plural else done t

-- `resolve_container_tag`.
unfoldable pub resolve_container_tag : Option Text → Option (List Text) → ApiResult Text
unfolding pick_tag validate_container_tag
resolve_container_tag singular plural = do
  tag ← pick_tag singular plural
  _ ← validate_container_tag tag
  done tag

-- `db_max_connections`, with `str::parse::<u32>` as an argument.
unfoldable pub db_max_connections : (Text → Option ℕ) → Option Text → ℕ
db_max_connections parse none = 16
db_max_connections parse (some s) = elim (parse (trim s)) [
  | none ↦ 16
  | some n ↦ if ltb 0 n then n else 16
]

-- `filter(|s| !s.is_empty())` of a trimmed field.
abbrev pub trimmed_field : Option Text → Option Text
trimmed_field none = none
trimmed_field (some s) = if is_empty (trim s) then none else some (trim s)
