-- ===== src/Server/Search/Tests.antt =====
-- Requests against small engines.
use pg_mnestic.Prelude.{
  ℕ, ◌+◌, ◌*◌, ◌≤◌, ◌≡◌, refl, true, List, [], ◌∷◌, map, none, some, ltb, leb, max, length, take,
  all, pos,
}
use pg_mnestic.Text.{
  Text, codes, trim, trim_matches, trim_start_matches, trim_end_matches, is_whitespace, split,
}
use pg_mnestic.Store.Db.{ok, err, empty_document}
use pg_mnestic.Engine.Samples.{ids, parse_single}
use pg_mnestic.Server.ContainerTag.{parse_container_tag, scope_of_segments}
use pg_mnestic.Server.Api.{
  ApiResult, done, failed, clamp_limit, filter_pool, is_tag_char, validate_container_tag,
  pick_plural, pick_tag, resolve_container_tag,
}
use pg_mnestic.Server.Api.Tags.{IsSent, resolve_container_tag-IsSent}
use pg_mnestic.Server.Search.{
  Scores, fetch, enrich_memory, enrich_all, enrich_if, top_from, cut, pool_size, search_tag,
}
use pg_mnestic.Server.Results.{
  SearchEngine, SearchRequest, SearchResult, SearchResponse, RecallHit, to_context_nodes,
}
use pg_mnestic.Server.Search.Pipeline.{hit, PassesCut, search_tag-hits}
use pg_mnestic.Server.Memories.{MemoryEngine, handle, forget_memory, forget_by, calling}
use pg_mnestic.Server.Requests.{Request, forget}
use pg_mnestic.Server.Memories.Refused.{handle_refused}

resolve_container_tag-IsSent_example :
    IsSent none (some (codes "org:acme" ∷ [])) (codes "org:acme")
    × (1 ≤ length (codes "org:acme"))
    × (length (codes "org:acme") ≤ 100)
    × (all is_tag_char (codes "org:acme") ≡ true)
unfolding resolve_container_tag pick_tag pick_plural validate_container_tag is_tag_char
resolve_container_tag-IsSent_example =
    resolve_container_tag-IsSent none (some (codes "org:acme" ∷ [])) (codes "org:acme") refl

-- Whole numbers as scores; a threshold is a divisor of the top.
abbrev whole : Scores
whole = record {
  F = ℕ;
  zero = 0;
  max = max;
  is_positive = ltb 0;
  reaches = λ s top t. leb top (s * t);
}

abbrev found_hit : ℕ → ℕ → RecallHit ℕ
found_hit id score = record {
  id = id;
  content = some (codes "a");
  recorded_at = none;
  score = score;
  metadata = codes "{}";
}

abbrev engine : SearchEngine ℕ
engine = record {
  recall_scoped = λ actor tags q limit flt forgotten rerank.
      ok (found_hit 1 8 ∷ found_hit 2 5 ∷ found_hit 3 1 ∷ []);
  search_documents = λ actor tags q limit flt. ok [];
  memory_context =
      λ actor id. ok (record { lineage = []; edges = []; related = []; source = none });
}

abbrev ask : SearchRequest ℕ
ask = record {
  q = codes "q";
  container_tag = none;
  container_tags = none;
  limit = some (pos 5);
  filters = none;
  search_mode = none;
  threshold = some 2;
  forgotten_memories = none;
  rerank = none;
  aggregate = some true;
}

abbrev answer : ApiResult (SearchResponse ℕ) → SearchResponse ℕ
answer (done r) = r
answer (failed e) = record { container_tag = []; results = []; total = 0 }

two_pass : (answer (search_tag whole ids engine ask (codes "u"))).total ≡ 2
unfolding search_tag fetch cut top_from enrich_if enrich_all enrich_memory to_context_nodes
    clamp_limit filter_pool ids parse_single parse_container_tag scope_of_segments split
two_pass = refl

search_tag-hits_example :
    (found : List (SearchResult ℕ)) × (fetch ids ℕ engine ask
        (parse_container_tag (codes "u"))
        (pool_size whole ask.threshold (clamp_limit ask.limit))
      ≡ done found)
    × (map hit (answer (search_tag whole ids engine ask (codes "u"))).results
        ≡ map hit (take (clamp_limit ask.limit) (cut whole ask.threshold found)))
    × PassesCut whole ask.threshold found
        (answer (search_tag whole ids engine ask (codes "u"))).results
    × (length (answer (search_tag whole ids engine ask (codes "u"))).results
        ≤ clamp_limit ask.limit)
    × (length (answer (search_tag whole ids engine ask (codes "u"))).results ≤ 100)
    × ((answer (search_tag whole ids engine ask (codes "u"))).total
        ≡ length (answer (search_tag whole ids engine ask (codes "u"))).results)
    × ((answer (search_tag whole ids engine ask (codes "u"))).container_tag ≡ codes "u")
unfolding search_tag fetch cut top_from enrich_if enrich_all enrich_memory to_context_nodes
    clamp_limit filter_pool ids parse_single parse_container_tag scope_of_segments split
search_tag-hits_example =
    search_tag-hits whole ids engine ask (codes "u")
      (answer (search_tag whole ids engine ask (codes "u"))) refl

-- An engine that counts what it is asked to forget, and does nothing else.
abbrev counter : MemoryEngine ℕ
counter = record {
  add_at = λ scope content kind custom_id metadata s. (err empty_document, s);
  enqueue = λ scope content kind custom_id metadata s. (err empty_document, s);
  forget_by_id = λ actor_id id reason s. (ok true, s + 1);
  forget_by_content = λ actor_id content s. (ok [], s + 1);
  update_memory = λ actor_id id v s. (ok none, s);
}

abbrev forget_request : Text → Request
forget_request id = forget (record {
  container_tag = some (codes "u");
  container_tags = none;
  id = some id;
  content = none;
  reason = none;
})

handle_refused_example : (handle ids (λ t. none) counter (forget_request (codes "no id")) 4).1 ≡ 4
unfolding handle forget_memory forget_by ids parse_single resolve_container_tag pick_tag
    validate_container_tag is_tag_char trim trim_matches trim_start_matches trim_end_matches
    is_whitespace
handle_refused_example =
    handle_refused ids (λ t. none) ℕ counter (forget_request (codes "no id")) 4 refl

is_forgotten : (handle ids (λ t. none) counter (forget_request (codes "x")) 4).1 ≡ 5
unfolding handle forget_memory forget_by calling ids parse_single resolve_container_tag pick_tag
    validate_container_tag is_tag_char trim trim_matches trim_start_matches trim_end_matches
    is_whitespace
is_forgotten = refl
