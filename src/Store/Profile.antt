-- ===== src/Store/Profile.antt =====
-- The profile: PROFILE_REFRESH_SQL, `refresh_profile_tx` and `get_profile`.
use Prim.Native.Nat.Ordering.{lt, eq, gt}
use pg_mnestic.Prelude.{
  ℕ, Bool, true, false, ◌&&◌, ◌||◌, not, List, [], ◌∷◌, ◌++◌, map, Option, none, some, compare,
  Ordering, ltb, leb, ◌==◌, if◌then◌else◌, filter, find, take,
}
use pg_mnestic.Text.{Text, codes, text_eq}
use pg_mnestic.Core.Types.{Time}
use pg_mnestic.Store.Span.{lower}
use pg_mnestic.Store.Db.{MemoryRow, ProfileRow, Tx, ok}
use pg_mnestic.Store.Memories.{is_current}

-- `CASE WHEN attribute IS NOT NULL THEN attribute || COALESCE(': ' || value, '') ELSE content END`.
unfoldable pub rendered : MemoryRow → Option Text
rendered r = elim r.attribute [
  | some a ↦ some (a ++ (elim r.value [ none ↦ [] | some v ↦ codes ": " ++ v ]))
  | none ↦ r.content
]

-- `FILTER (WHERE txt IS NOT NULL)`.
unfoldable pub present : List (Option Text) → List Text
present [] = []
present (none ∷ ts) = present ts
present (some t ∷ ts) = t ∷ present ts

abbrev pub tie_break : Ordering → Ordering → Ordering
tie_break eq second = second
tie_break first _ = first

-- `ORDER BY t DESC`, NULLS FIRST as is the default.
abbrev pub cmp_time_desc : Option Time → Option Time → Ordering
cmp_time_desc none none = eq
cmp_time_desc none (some b) = lt
cmp_time_desc (some a) none = gt
cmp_time_desc (some a) (some b) = compare b a

unfoldable pub cmp_recent : MemoryRow → MemoryRow → Ordering
cmp_recent r s =
    tie_break (cmp_time_desc (lower r.recorded_time) (lower s.recorded_time)) (compare s.id r.id)

unfoldable pub cmp_confident : MemoryRow → MemoryRow → Ordering
unfolding cmp_recent
cmp_confident r s = tie_break (compare s.confidence r.confidence) (cmp_recent r s)

abbrev pub not_after : Ordering → Bool
not_after gt = false
not_after _ = true

unfoldable pub insert_sorted :
    (MemoryRow → MemoryRow → Ordering) → MemoryRow → List MemoryRow → List MemoryRow
insert_sorted cmp r [] = r ∷ []
insert_sorted cmp r (s ∷ rs) =
    if not_after (cmp r s) then r ∷ s ∷ rs else s ∷ insert_sorted cmp r rs

unfoldable pub order_by : (MemoryRow → MemoryRow → Ordering) → List MemoryRow → List MemoryRow
unfolding insert_sorted
order_by cmp [] = []
order_by cmp (r ∷ rs) = insert_sorted cmp r (order_by cmp rs)

abbrev pub owned_by : ℕ → Text → MemoryRow → Bool
owned_by tenant_id actor_id r = r.tenant_id == tenant_id && text_eq r.actor_id actor_id

abbrev pub is_null_time : Option Time → Bool
is_null_time none = true
is_null_time (some t) = false

-- `forget_after IS NULL OR forget_after > now()`.
abbrev pub not_expired : Time → Option Time → Bool
not_expired now none = true
not_expired now (some t) = ltb now t

unfoldable pub static_facts : ℕ → Text → ℕ → ℕ → List MemoryRow → List Text
unfolding order_by cmp_confident rendered present
static_facts tenant_id actor_id static_confidence static_limit rows = present (
    map rendered (
      take static_limit (
        order_by cmp_confident (
          filter
            (λ r.
              owned_by tenant_id actor_id r
              && is_current r
              && is_null_time r.forget_after
              && (r.is_static || leb static_confidence r.confidence))
            rows))))

unfoldable pub dynamic_ctx : ℕ → Text → ℕ → Time → List MemoryRow → List Text
unfolding order_by cmp_recent rendered present
dynamic_ctx tenant_id actor_id dynamic_limit now rows = present (
    map rendered (
      take dynamic_limit (
        order_by cmp_recent (
          filter
            (λ r. owned_by tenant_id actor_id r && is_current r && not_expired now r.forget_after)
            rows))))

abbrev pub is_profile_of : ℕ → Text → ProfileRow → Bool
is_profile_of tenant_id actor_id p = p.tenant_id == tenant_id && text_eq p.actor_id actor_id

-- `refresh_profile_tx`: the upsert on (tenant_id, actor_id).
unfoldable pub refresh_profile : ℕ → Text → ℕ → ℕ → ℕ → Tx (Unit {0})
unfolding static_facts dynamic_ctx
refresh_profile tenant_id actor_id static_confidence static_limit dynamic_limit d =
    let p : ProfileRow = record {
      tenant_id = tenant_id;
      actor_id = actor_id;
      static_facts = static_facts tenant_id actor_id static_confidence static_limit d.memories;
      dynamic_ctx = dynamic_ctx tenant_id actor_id dynamic_limit d.now d.memories;
      refreshed_at = d.now;
    } in
    ok (
      tt,
      record d { profiles = p ∷ filter (λ q. not (is_profile_of tenant_id actor_id q)) d.profiles },
    )

-- `get_profile`.
unfoldable pub get_profile : ℕ → Text → Tx (Option ProfileRow)
get_profile tenant_id actor_id d = ok (find (is_profile_of tenant_id actor_id) d.profiles, d)
