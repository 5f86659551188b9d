-- ===== src/Server/Search/Pipeline.antt =====
-- What a search answers: the strongest of what the engine found, whole and in its order.
use pg_mnestic.Prelude.{
  ℕ, zero, suc, ◌≤◌, ◌≡◌, refl, ◌∙◌, ap, subst, ◌⊎◌, inl, inr, Bool, true, false, List, [], ◌∷◌,
  map, Option, none, some, if◌then◌else◌, length, length-take, filter, take, All, arith, Bool-cases,
  pos, negsuc, ℤ,
}
use pg_mnestic.Text.{Text}
use pg_mnestic.Store.Db.{Result-cases}
use pg_mnestic.Store.Memories.{Uuids}
use pg_mnestic.Server.ContainerTag.{parse_container_tag}
use pg_mnestic.Server.Api.{ApiResult, done, failed, ◌>>=◌, clamp_limit}
use pg_mnestic.Server.Search.{
  Scores, fetch, enrich_memory, enrich_all, enrich_if, top_from, cut, pool_size, search_tag,
}
use pg_mnestic.Server.Results.{SearchEngine, SearchRequest, SearchResult, SearchResponse}

bind_done :
    {A B : Type 0} (o : ApiResult A) (f : A → ApiResult B) (b : B)
    → (o >>= f) ≡ done b
    → (a : A) × (o ≡ done a) × (f a ≡ done b)
bind_done (done a) f b h = (a, refl, h)
bind_done (failed e) f b h = ground arith

module _ {F : Type 0} where
  -- What identifies a hit and what it says.
  abbrev pub hit : SearchResult F → Text × Option Text × Option Text × F
  hit r = (r.id, r.memory, r.chunk, r.similarity)

  module _ (uuids : Uuids) (engine : SearchEngine F) (actor_id : Text) where
    enrich_memory-hit :
        (r r' : SearchResult F) (c : Option Text) (id : Option ℕ)
        → enrich_memory uuids F engine actor_id r c id ≡ done r'
        → hit r' ≡ hit r
    unfolding enrich_memory
    enrich_memory-hit r r' (some c) id h = ground arith
    enrich_memory-hit r r' none none h = ground arith
    enrich_memory-hit r r' none (some id) h =
        elim (Result-cases (engine.memory_context actor_id id)) [
          | inl (ctx, e) ↦ ground arith
          | inr (x, e) ↦ ground arith
        ]

    enrich_all-hits :
        (rs rs' : List (SearchResult F))
        → enrich_all uuids F engine actor_id rs ≡ done rs'
        → map hit rs' ≡ map hit rs
    unfolding enrich_all
    enrich_all-hits [] rs' h = let same : rs' ≡ [] = ground arith in rw same refl
    enrich_all-hits (r ∷ rs) rs' h =
        let (r', e, g) =
          bind_done (enrich_memory uuids F engine actor_id r r.chunk (uuids.parse_str r.id))
            (λ r'. enrich_all uuids F engine actor_id rs >>= λ rest. done (r' ∷ rest)) rs' h in
        let (rest, f, k) =
          bind_done (enrich_all uuids F engine actor_id rs) (λ rest. done (r' ∷ rest)) rs' g in
        let same : rs' ≡ r' ∷ rest = ground arith in
        rw same (
          ap (λ x. x ∷ map hit rest) (enrich_memory-hit r r' r.chunk (uuids.parse_str r.id) e)
          ∙ ap (λ xs. hit r ∷ xs) (enrich_all-hits rs rest f))

    enrich_if-hits :
        (aggregate : Option Bool) (rs rs' : List (SearchResult F))
        → enrich_if uuids F engine aggregate actor_id rs ≡ done rs'
        → map hit rs' ≡ map hit rs
    unfolding enrich_if
    enrich_if-hits (some true) rs rs' h = enrich_all-hits rs rs' h
    enrich_if-hits (some false) rs rs' h = let same : rs' ≡ rs = ground arith in rw same refl
    enrich_if-hits none rs rs' h = let same : rs' ≡ rs = ground arith in rw same refl

  length-map :
      {B : Type 0} (f : SearchResult F → B) (rs : List (SearchResult F))
      → length (map f rs) ≡ length rs
  length-map f [] = refl
  length-map f (r ∷ rs) = ap suc (length-map f rs)

  take-All :
      (P : SearchResult F → Type 0) (n : ℕ) (rs : List (SearchResult F))
      → All P rs
      → All P (take n rs)
  take-All P zero rs a = tt
  take-All P (suc n) [] a = tt
  take-All P (suc n) (r ∷ rs) a = (a.0, take-All P n rs a.1)

  filter-All :
      (p : SearchResult F → Bool) (rs : List (SearchResult F)) → All (λ r. p r ≡ true) (filter p rs)
  filter-All p [] = tt
  filter-All p (r ∷ rs) = elim (Bool-cases (p r)) [
    | inl e ↦ rw e (e, filter-All p rs)
    | inr e ↦ rw e (filter-All p rs)
  ]

  All-scores :
      (P : F → Type 0) (rs rs' : List (SearchResult F))
      → map hit rs' ≡ map hit rs
      → All (λ (r : SearchResult F). P r.similarity) rs
      → All (λ (r : SearchResult F). P r.similarity) rs'
  All-scores P [] [] e a = tt
  All-scores P [] (r' ∷ rs') e a = ground arith
  All-scores P (r ∷ rs) [] e a = ground arith
  All-scores P (r ∷ rs) (r' ∷ rs') e a =
      let same : r.similarity ≡ r'.similarity = ground arith in
      let rest : map hit rs' ≡ map hit rs = ground arith in
      (subst P same a.0, All-scores P rs rs' rest a.1)

clamp_limit-bounds : (limit : Option ℤ) → (1 ≤ clamp_limit limit) × (clamp_limit limit ≤ 100)
unfolding clamp_limit
clamp_limit-bounds none = (omega arith, omega arith)
clamp_limit-bounds (some (pos n)) = (omega arith, omega arith)
clamp_limit-bounds (some (negsuc n)) = (omega arith, omega arith)

module _ (scores : Scores) where
  -- Where the strongest hit scores more than 0, a hit reaches the threshold's share of it.
  unfoldable pub PassesCut :
      Option scores.F → List (SearchResult scores.F) → List (SearchResult scores.F) → Type 0
  PassesCut none found rs = Unit
  PassesCut (some t) found rs =
      (scores.is_positive (top_from scores scores.zero found) ≡ false)
      ⊎ All
          (λ (r : SearchResult scores.F).
            scores.reaches r.similarity (top_from scores scores.zero found) t ≡ true)
          rs

  passes :
      (threshold : Option scores.F) (n : ℕ) (found rs : List (SearchResult scores.F))
      → map hit rs ≡ map hit (take n (cut scores threshold found))
      → PassesCut threshold found rs
  unfolding PassesCut cut
  passes none n found rs e = tt
  passes (some t) n found rs e =
      elim (Bool-cases (scores.is_positive (top_from scores scores.zero found))) [
        | inr f ↦ inl f
        | inl f ↦ inr (
            All-scores (λ s. scores.reaches s (top_from scores scores.zero found) t ≡ true)
              (take n (
                filter
                  (λ (r : SearchResult scores.F).
                    scores.reaches r.similarity (top_from scores scores.zero found) t)
                  found))
              rs
              (e
                ∙ ap
                    (λ b. map hit (
                      take n (
                        if b
                        then filter
                            (λ (r : SearchResult scores.F).
                              scores.reaches r.similarity (top_from scores scores.zero found) t)
                            found
                        else found)))
                    f)
              (take-All _ n _ (
                filter-All
                  (λ (r : SearchResult scores.F).
                    scores.reaches r.similarity (top_from scores scores.zero found) t)
                  found)))
      ]

  -- A search that answers gives, in the engine's order and with or without the aggregate view, the first
  -- of the hits that the engine found for the request's scope, at most its limit and never more than
  -- 100, each of which passes the relative cutoff, and says how many they are.
  pub search_tag-hits :
      (uuids : Uuids) (engine : SearchEngine scores.F) (req : SearchRequest scores.F) (tag : Text)
      (resp : SearchResponse scores.F)
      → search_tag scores uuids engine req tag ≡ done resp
      → (found : List (SearchResult scores.F)) × (fetch uuids scores.F engine req
            (parse_container_tag tag)
            (pool_size scores req.threshold (clamp_limit req.limit))
          ≡ done found)
        × (map hit resp.results
            ≡ map hit (take (clamp_limit req.limit) (cut scores req.threshold found)))
        × PassesCut req.threshold found resp.results
        × (length resp.results ≤ clamp_limit req.limit)
        × (length resp.results ≤ 100)
        × (resp.total ≡ length resp.results)
        × (resp.container_tag ≡ tag)
  unfolding search_tag
  search_tag-hits uuids engine req tag resp h =
      let limit = clamp_limit req.limit in
      let scope = parse_container_tag tag in
      let (found, e, g) =
        bind_done (fetch uuids scores.F engine req scope (pool_size scores req.threshold limit))
          (λ found.
            enrich_if uuids scores.F engine req.aggregate scope.actor_id
              (take limit (cut scores req.threshold found))
            >>= λ results.
                done (record { container_tag = tag; results = results; total = length results }))
          resp h in
      let (results, f, k) =
        bind_done
          (enrich_if uuids scores.F engine req.aggregate scope.actor_id
            (take limit (cut scores req.threshold found)))
          (λ results.
            done (record { container_tag = tag; results = results; total = length results }))
          resp g in
      let same : resp ≡ record { container_tag = tag; results = results; total = length results } =
        ground arith in
      let kept = enrich_if-hits uuids engine scope.actor_id req.aggregate _ results f in
      let few : length results ≤ limit = omega (
        arith,
        length-map hit results,
        length-map hit (take limit (cut scores req.threshold found)),
        ap length kept,
        length-take limit (cut scores req.threshold found),
      ) in
      rw same (
        found,
        e,
        kept,
        passes req.threshold limit found results kept,
        few,
        omega (arith, few, (clamp_limit-bounds req.limit).1),
        refl,
        refl,
      )
