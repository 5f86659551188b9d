-- ===== src/Engine/Relate.antt =====
-- `classify_relations`: the edges from a new memory to others of its subject. The classifier's answers
-- are an argument.
pub mod Neighbors
pub mod Edges
pub mod Keeps
pub mod Tests
use Prim.Native.Nat.Ordering.{lt, eq, gt}
use pg_mnestic.Prelude.{
  ℕ, suc, ◌+◌, Bool, true, false, ◌&&◌, not, List, [], ◌∷◌, map, Option, none, some, Ordering, ltb,
  ◌==◌, if◌then◌else◌, filter, find, take, get_elem?, ℤ, pos, negsuc,
}
use pg_mnestic.Text.{Text, codes, text_eq, opt_text_eq}
use pg_mnestic.Core.Types.{Relation, extends, derives, relation_str, RelationEdge}
use pg_mnestic.Store.Span.{lower}
use pg_mnestic.Store.Db.{Db, MemoryRow, Error, Result, ok, err, Tx, ◌>>=◌, ◌>>◌, return}
use pg_mnestic.Store.Memories.{is_current, is_null, insert_relation}
use pg_mnestic.Store.Profile.{owned_by, cmp_time_desc, order_by}

-- `RawEdge` of the model's answer.
pub record RawEdge : Type 0 where
  pub index : ℤ
  pub relation : Text

abbrev pub relation_of : Text → Option Relation
relation_of t =
    if text_eq t (codes "extends")
    then some extends
    else if text_eq t (codes "derives")
    then some derives
    else none

abbrev pub into_edge : RawEdge → ℕ → Option RelationEdge
into_edge e n = elim e.index [
  | negsuc i ↦ none
  | pos i ↦
      if ltb i n
      then (elim (relation_of e.relation) [
        | none ↦ none
        | some r ↦ some (record { index = i; relation = r })
      ])
      else none
]

-- `into_edges`.
unfoldable pub into_edges : List RawEdge → ℕ → List RelationEdge
into_edges [] n = []
into_edges (e ∷ es) n = elim (into_edge e n) [
  | none ↦ into_edges es n
  | some r ↦ r ∷ into_edges es n
]

abbrev pub is_brief : ℕ → Text → ℕ → MemoryRow → Bool
is_brief tenant_id actor_id id r = owned_by tenant_id actor_id r && r.id == id && is_current r

-- `memory_brief`.
unfoldable pub memory_brief : ℕ → Text → ℕ → List MemoryRow → Option (Text × Option Text)
memory_brief tenant_id actor_id id rows = elim (find (is_brief tenant_id actor_id id) rows) [
  | none ↦ none
  | some r ↦ (elim r.content [ none ↦ none | some c ↦ some (c, r.subject) ])
]

-- The first query of `same_subject_neighbors`.
unfoldable pub subject_of : ℕ → Text → ℕ → List MemoryRow → Option Text
subject_of tenant_id actor_id id rows =
    elim (find (λ r. owned_by tenant_id actor_id r && r.id == id) rows) [
      | none ↦ none
      | some r ↦ r.subject
    ]

unfoldable pub is_neighbor : ℕ → Text → Text → ℕ → MemoryRow → Bool
is_neighbor tenant_id actor_id subject id r =
    owned_by tenant_id actor_id r
    && opt_text_eq r.subject (some subject)
    && not (r.id == id)
    && is_current r
    && not (is_null r.content)

abbrev pub text_of : Option Text → Text
text_of none = []
text_of (some t) = t

unfoldable pub newest_recorded : MemoryRow → MemoryRow → Ordering
newest_recorded r s = cmp_time_desc (lower r.recorded_time) (lower s.recorded_time)

-- The second query of `same_subject_neighbors`.
unfoldable pub neighbors_of : ℕ → Text → ℕ → ℕ → List MemoryRow → Option Text → List (ℕ × Text)
unfolding is_neighbor newest_recorded order_by
neighbors_of tenant_id actor_id memory_id limit rows none = []
neighbors_of tenant_id actor_id memory_id limit rows (some s) =
    map (λ (r : MemoryRow). (r.id, text_of r.content))
      (take limit
        (order_by newest_recorded (filter (is_neighbor tenant_id actor_id s memory_id) rows)))

-- `same_subject_neighbors`.
unfoldable pub same_subject_neighbors : ℕ → Text → ℕ → ℕ → List MemoryRow → List (ℕ × Text)
unfolding neighbors_of subject_of
same_subject_neighbors tenant_id actor_id memory_id limit rows =
    neighbors_of tenant_id actor_id memory_id limit rows
      (subject_of tenant_id actor_id memory_id rows)

module _ (tenant_id : ℕ) (actor_id : Text) where
  -- `for edge in edges`: an index that is out of range is passed over.
  unfoldable pub write_edges : ℕ → List (ℕ × Text) → List RelationEdge → Tx (Unit {0})
  unfolding insert_relation relation_str
  write_edges id neighbors [] = return tt
  write_edges id neighbors (e ∷ es) = elim (get_elem? neighbors e.index) [
    | none ↦ write_edges id neighbors es
    | some (to_id, c) ↦ (do
      insert_relation tenant_id actor_id id to_id (relation_str e.relation)
      write_edges id neighbors es)
  ]

-- What a transaction returns, unless the connection or the server fails.
abbrev pub met {ℓ} : {A : Type ℓ} → Option Error → Result A → Result A
met none r = r
met (some e) r = err e

-- `others round step d` is the committed database that a transaction of the round starts from, where
-- `d` is what the one before left: step 0 reads the memory, step 1 its neighbors, and step 2 writes.
-- `outage round step` is the failure that the step meets, if it does.
module _ (tenant_id : ℕ) (actor_id : Text)
    (classify : ℕ → Text → List Text → Result (List RelationEdge)) (others : ℕ → ℕ → Db → Db)
    (outage : ℕ → ℕ → Option Error) where
  -- The transaction that writes the edges commits, or is rolled back.
  abbrev pub committed : Db → Result (Unit {0} × Db) → Result (Unit {0}) × Db
  committed d (ok (u, d')) = (ok tt, d')
  committed d (err e) = (err e, d)

  -- From the classifier's answer on; it was asked outside of any transaction.
  unfoldable pub relate_answer :
      ℕ → ℕ → List (ℕ × Text) → Result (List RelationEdge) → Db → Result (Unit {0}) × Db
  unfolding write_edges
  relate_answer round id neighbors (err e) d = (err e, d)
  relate_answer round id neighbors (ok []) d = (ok tt, d)
  relate_answer round id neighbors (ok (e ∷ es)) d =
      let seen = others round 2 d in
      committed seen
        (met (outage round 2) (write_edges tenant_id actor_id id neighbors (e ∷ es) seen))

  -- From the neighbors on.
  unfoldable pub relate_neighbors :
      ℕ → ℕ → Text → Result (List (ℕ × Text)) → Db → Result (Unit {0}) × Db
  unfolding relate_answer
  relate_neighbors round id content (err e) d = (err e, d)
  relate_neighbors round id content (ok []) d = (ok tt, d)
  relate_neighbors round id content (ok (n ∷ ns)) d =
      relate_answer round id (n ∷ ns) (classify id content (map (λ (x : ℕ × Text). x.1) (n ∷ ns))) d

  -- From the memory's text and subject on: one without a subject is passed over.
  unfoldable pub relate_brief :
      ℕ → ℕ → Result (Option (Text × Option Text)) → Db → Result (Unit {0}) × Db
  unfolding relate_neighbors same_subject_neighbors
  relate_brief round id (err e) d = (err e, d)
  relate_brief round id (ok none) d = (ok tt, d)
  relate_brief round id (ok (some (content, none))) d = (ok tt, d)
  relate_brief round id (ok (some (content, some subject))) d =
      let seen = others round 1 d in
      relate_neighbors round id content
        (met (outage round 1) (ok (same_subject_neighbors tenant_id actor_id id 10 seen.memories)))
        seen

  -- A round of the loop.
  unfoldable pub relate_one : ℕ → ℕ → Db → Result (Unit {0}) × Db
  unfolding relate_brief memory_brief
  relate_one round id d =
      let seen = others round 0 d in
      relate_brief round id
        (met (outage round 0) (ok (memory_brief tenant_id actor_id id seen.memories))) seen

  -- `classify_relations`, from a round on: an error ends the loop, and the edges that were committed
  -- stay.
  unfoldable pub classify_relations : ℕ → List ℕ → Db → Result (Unit {0}) × Db
  unfolding relate_one
  classify_relations round [] d = (ok tt, d)
  classify_relations round (id ∷ ids) d =
      let done = relate_one round id d in
      elim done.0 [ err e ↦ (err e, done.1) | ok u ↦ classify_relations (suc round) ids done.1 ]
