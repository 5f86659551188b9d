-- ===== src/Engine/Relate/Tests.antt =====
-- The relation pass on two memories of one subject.
use pg_mnestic.Prelude.{
  ℕ, ◌+◌, ◌≡◌, refl, ◌⊎◌, inl, inr, ◌==◌, if◌then◌else◌, List, [], ◌∷◌, Option, none, some, map,
  All, In,
}
use pg_mnestic.Text.{Text, codes, text_eq, opt_text_eq}
use pg_mnestic.Core.Types.{RelationEdge, extends, relation_str}
use pg_mnestic.Store.Span.{lower}
use pg_mnestic.Store.Db.{Db, EdgeRow, Error, db, other, Result, ok}
use pg_mnestic.Store.Memories.{new_row, insert_relation, same_edge}
use pg_mnestic.Store.Profile.{insert_sorted, order_by}
use pg_mnestic.Engine.Write.{write_row}
use pg_mnestic.Engine.Samples.{nyc_row, nyc_db}
use pg_mnestic.Engine.Relate.{
  classify_relations, relate_one, relate_brief, relate_neighbors, relate_answer, write_edges,
  memory_brief, same_subject_neighbors, neighbors_of, subject_of, is_neighbor, newest_recorded,
}
use pg_mnestic.Engine.Relate.Edges.{HasEdges, classify_relations-IsNew}

-- Each new memory extends the first of its neighbors.
abbrev extend_first : ℕ → Text → List Text → Result (List RelationEdge)
extend_first id content neighbors =
    ok (record { index = 0; relation = extends } ∷ record { index = 9; relation = extends } ∷ [])

abbrev pair_db : Db
pair_db = record nyc_db { memories = record nyc_row { id = 2 } ∷ nyc_row ∷ []; next_id = 3 }

-- The clock moves between the transactions.
abbrev later : ℕ → ℕ → Db → Db
later round phase d = record d { now = 100 + phase }

-- The connection breaks as the second memory is read.
abbrev breaks : ℕ → ℕ → Option Error
breaks round phase = if round == 1 then some (db other) else none

pair_related :
    map
      (λ (e : EdgeRow). e.to_id)
      (classify_relations 1
        (codes "alice")
        extend_first
        later
        (λ round step. none)
        0
        (2 ∷ [])
        pair_db).1.edges
    ≡ 1 ∷ []
unfolding classify_relations relate_one relate_brief relate_neighbors relate_answer write_edges
    insert_relation same_edge memory_brief same_subject_neighbors neighbors_of subject_of
    is_neighbor text_eq opt_text_eq new_row write_row order_by insert_sorted newest_recorded
    relation_str lower
pair_related = refl

unchanged :
    (es old : List EdgeRow)
    → ((e : EdgeRow) → In e es → In e old)
    → All (λ (e : EdgeRow). In e old ⊎ ⊥) es
unchanged [] old up = tt
unchanged (e ∷ es) old up = (inl (up e (inl refl)), unchanged es old (λ x h. up x (inr h)))

unchanged_edges :
    (round step : ℕ) (d : Db) → All (λ (e : EdgeRow). In e d.edges ⊎ ⊥) (later round step d).edges
unchanged_edges round phase d = unchanged d.edges d.edges (λ e h. h)

classify_relations-IsNew_example :
    HasEdges 1
      (codes "alice")
      (λ rows. rows ≡ pair_db.memories)
      (λ e. ⊥)
      (classify_relations 1 (codes "alice") extend_first later breaks 0 (2 ∷ 1 ∷ []) pair_db).1
classify_relations-IsNew_example =
    classify_relations-IsNew 1 (codes "alice") (λ rows. rows ≡ pair_db.memories) (λ e. ⊥)
      extend_first later breaks (λ round phase d h. h) unchanged_edges (2 ∷ 1 ∷ []) pair_db refl tt
