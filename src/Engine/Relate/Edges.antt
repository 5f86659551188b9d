-- ===== src/Engine/Relate/Edges.antt =====
-- The edges that the relation pass adds.
use pg_mnestic.Prelude.{
  ℕ, zero, suc, ◌≡◌, refl, sym, subst, ◌⊎◌, inl, inr, true, List, [], ◌∷◌, Option, none, some, ◌==◌,
  get_elem?, any, All, All-imp, In, arith, Bool-cases, Option-cases,
}
use pg_mnestic.Text.{Text, codes}
use pg_mnestic.Core.Types.{Relation, extends, derives, relation_str, RelationEdge}
use pg_mnestic.Store.Db.{Db, MemoryRow, EdgeRow, Error, Result, ok, err, Result-cases}
use pg_mnestic.Store.Memories.{same_edge, insert_relation}
use pg_mnestic.Store.Preserve.{Keeps, >>=-Keeps, return-Keeps}
use pg_mnestic.Engine.Relate.{
  same_subject_neighbors, write_edges, met, committed, relate_answer, relate_neighbors,
  relate_brief, relate_one, classify_relations,
}
use pg_mnestic.Engine.Relate.Neighbors.{shares_subject, neighbors-All, IsNew}

get_elem?-All :
    (P : ℕ × Text → Type 0) (xs : List (ℕ × Text)) (i : ℕ) (x : ℕ × Text)
    → All P xs
    → get_elem? xs i ≡ some x
    → P x
get_elem?-All P [] i x a h = ground arith
get_elem?-All P (y ∷ xs) zero x a h = let same : y ≡ x = ground arith in subst P same a.0
get_elem?-All P (y ∷ xs) (suc i) x a h = get_elem?-All P xs i x a.1 h

named : (r : Relation) → (relation_str r ≡ codes "extends") ⊎ (relation_str r ≡ codes "derives")
unfolding relation_str
named extends = inl refl
named derives = inr refl

All-In : (P : EdgeRow → Type 0) (es : List EdgeRow) (e : EdgeRow) → All P es → In e es → P e
All-In P [] e a m = absurd m
All-In P (x ∷ es) e a (inl same) = subst P (sym same) a.0
All-In P (x ∷ es) e a (inr m) = All-In P es e a.1 m

module _ (tenant_id : ℕ) (actor_id : Text) (Seen : List MemoryRow → Type 0)
    (Old : EdgeRow → Type 0) where
  -- The memories are as the pass may see them, and every edge is old, or new by memories that the
  -- pass may have seen.
  abbrev pub HasEdges : Db → Type 0
  HasEdges d =
      Seen d.memories
      × All
          (λ (e : EdgeRow).
            Old e ⊎ ((rows : List MemoryRow) × Seen rows × IsNew tenant_id actor_id rows e))
          d.edges

  module _ (rows : List MemoryRow) (seen : Seen rows) where
    insert_relation-HasEdges :
        (id to_id : ℕ) (r : Relation)
        → shares_subject tenant_id actor_id rows id to_id ≡ true
        → Keeps HasEdges (insert_relation tenant_id actor_id id to_id (relation_str r))
    unfolding insert_relation IsNew
    insert_relation-HasEdges id to_id r shares d d' u h v =
        let memories : d'.memories ≡ d.memories = ground arith in
        let e : EdgeRow = record {
          tenant_id = tenant_id;
          actor_id = actor_id;
          from_id = id;
          to_id = to_id;
          relation = relation_str r;
        } in
        (
          subst Seen (sym memories) v.0,
          (elim (Bool-cases (id == to_id)) [
            | inl a ↦ let same : d.edges ≡ d'.edges = ground arith in rw (sym same) v.1
            | inr a ↦ (elim (Bool-cases (any (same_edge e) d.edges)) [
              | inl b ↦ let same : d.edges ≡ d'.edges = ground arith in rw (sym same) v.1
              | inr b ↦
                  let more : d'.edges ≡ e ∷ d.edges = ground arith in
                  rw more (inr (rows, seen, (refl, refl, shares, named r)), v.1)
            ])
          ]),
        )

    write_edges-HasEdges :
        (id : ℕ) (neighbors : List (ℕ × Text)) (es : List RelationEdge)
        → All (λ (x : ℕ × Text). shares_subject tenant_id actor_id rows id x.0 ≡ true) neighbors
        → Keeps HasEdges (write_edges tenant_id actor_id id neighbors es)
    unfolding write_edges
    write_edges-HasEdges id neighbors [] a = return-Keeps HasEdges tt
    write_edges-HasEdges id neighbors (e ∷ es) a =
        elim (Option-cases (get_elem? neighbors e.index)) [
          | inl g ↦ rw (g, write_edges) (write_edges-HasEdges id neighbors es a)
          | inr (x, g) ↦
              rw (g, write_edges)
                (>>=-Keeps HasEdges _ _
                  (insert_relation-HasEdges id x.0 e.relation (
                    get_elem?-All
                      (λ (y : ℕ × Text). shares_subject tenant_id actor_id rows id y.0 ≡ true)
                      neighbors e.index x a g))
                  λ _. write_edges-HasEdges id neighbors es a)
        ]

  module _ (classify : ℕ → Text → List Text → Result (List RelationEdge)) (others : ℕ → ℕ → Db → Db)
      (outage : ℕ → ℕ → Option Error)
      (sees : (round step : ℕ) (d : Db) → Seen d.memories → Seen (others round step d).memories)
      (adds : (round step : ℕ) (d : Db)
        → All (λ e. In e d.edges ⊎ Old e) (others round step d).edges) where
    others-HasEdges : (round step : ℕ) (d : Db) → HasEdges d → HasEdges (others round step d)
    others-HasEdges round step d v = (
      sees round step d v.0,
      All-imp (λ e m. elim m [ inl there ↦ All-In _ d.edges e v.1 there | inr old ↦ inl old ])
          (others round step d).edges (adds round step d),
    )

    committed-HasEdges :
        (d : Db) (o : Option Error) (r : Result (Unit {0} × Db))
        → HasEdges d
        → ((d' : Db) (u : Unit {0}) → r ≡ ok (u, d') → HasEdges d')
        → HasEdges (committed tenant_id actor_id classify others outage d (met o r)).1
    committed-HasEdges d (some e) r v k = v
    committed-HasEdges d none (err e) v k = v
    committed-HasEdges d none (ok (u, d')) v k = k d' u refl

    relate_answer-HasEdges :
        (round id : ℕ) (rows : List MemoryRow) (neighbors : List (ℕ × Text))
        (answer : Result (List RelationEdge)) (d : Db)
        → Seen rows
        → All (λ (x : ℕ × Text). shares_subject tenant_id actor_id rows id x.0 ≡ true) neighbors
        → HasEdges d
        → HasEdges
            (relate_answer tenant_id actor_id classify others outage round id neighbors answer d).1
    unfolding relate_answer
    relate_answer-HasEdges round id rows neighbors (err e) d s a v = v
    relate_answer-HasEdges round id rows neighbors (ok []) d s a v = v
    relate_answer-HasEdges round id rows neighbors (ok (e ∷ es)) d s a v =
        let v' = others-HasEdges round 2 d v in
        committed-HasEdges (others round 2 d) (outage round 2) _ v'
          λ d' u h. write_edges-HasEdges rows s id neighbors (e ∷ es) a (others round 2 d) d' u h v'

    relate_neighbors-HasEdges :
        (round id : ℕ) (content : Text) (rows : List MemoryRow) (o : Option Error)
        (neighbors : List (ℕ × Text)) (d : Db)
        → Seen rows
        → All (λ (x : ℕ × Text). shares_subject tenant_id actor_id rows id x.0 ≡ true) neighbors
        → HasEdges d
        → HasEdges
            (relate_neighbors tenant_id actor_id classify others outage round id content
              (met o (ok neighbors))
              d).1
    unfolding relate_neighbors
    relate_neighbors-HasEdges round id content rows (some e) ns d s a v = v
    relate_neighbors-HasEdges round id content rows none [] d s a v = v
    relate_neighbors-HasEdges round id content rows none (n ∷ ns) d s a v =
        relate_answer-HasEdges round id rows (n ∷ ns) _ d s a v

    relate_brief-HasEdges :
        (round id : ℕ) (brief : Result (Option (Text × Option Text))) (d : Db)
        → HasEdges d
        → HasEdges (relate_brief tenant_id actor_id classify others outage round id brief d).1
    unfolding relate_brief
    relate_brief-HasEdges round id (err e) d v = v
    relate_brief-HasEdges round id (ok none) d v = v
    relate_brief-HasEdges round id (ok (some (content, none))) d v = v
    relate_brief-HasEdges round id (ok (some (content, some subject))) d v =
        let seen = others round 1 d in
        let v' = others-HasEdges round 1 d v in
        relate_neighbors-HasEdges round id content seen.memories (outage round 1)
          (same_subject_neighbors tenant_id actor_id id 10 seen.memories) seen v'.0
          (neighbors-All tenant_id actor_id seen.memories id 10) v'

    classify-HasEdges :
        (round : ℕ) (ids : List ℕ) (d : Db)
        → HasEdges d
        → HasEdges (classify_relations tenant_id actor_id classify others outage round ids d).1
    unfolding classify_relations relate_one
    classify-HasEdges round [] d v = v
    classify-HasEdges round (id ∷ ids) d v =
        let done = relate_one tenant_id actor_id classify others outage round id d in
        let v' : HasEdges done.1 =
          relate_brief-HasEdges round id _ (others round 0 d) (others-HasEdges round 0 d v) in
        elim (Result-cases done.0) [
          | inr (x, e) ↦ rw (e, classify_relations) v'
          | inl (u, e) ↦ rw (e, classify_relations) (classify-HasEdges (suc round) ids done.1 v')
        ]

    -- Whatever the classifier answers, whatever fails, and whatever other transactions do between
    -- the reads of the relation pass, its question and its write, where all that the others commit
    -- keeps the table of memories within `Seen` and adds `Old` edges only, for any such `Seen` and
    -- `Old`: the memories are within `Seen` after the pass, and every edge that is not `Old` goes, as
    -- `extends` or `derives`, from one memory of the actor to another that was a current one of the
    -- same subject in a table within `Seen`.
    pub classify_relations-IsNew :
        (ids : List ℕ) (d : Db)
        → Seen d.memories
        → All Old d.edges
        → HasEdges (classify_relations tenant_id actor_id classify others outage 0 ids d).1
    classify_relations-IsNew ids d seen old =
        classify-HasEdges 0 ids d (seen, All-imp (λ e h. inl h) d.edges old)
