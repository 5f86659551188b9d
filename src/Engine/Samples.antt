-- ===== src/Engine/Samples.antt =====
-- Small databases, and requests against them.
use pg_mnestic.Prelude.{
  ℕ, ◌+◌, refl, true, false, List, [], ◌∷◌, Option, none, some, map, replicate,
}
use pg_mnestic.Text.{Text, codes, to_ascii_lowercase}
use pg_mnestic.Core.Types.{Time, fact, Temporal, as_of, Candidate}
use pg_mnestic.Store.Span.{span}
use pg_mnestic.Store.Db.{Db, Result, ok, err, MemoryRow, SourceRow}
use pg_mnestic.Store.Memories.{Uuids, new_row}
use pg_mnestic.Engine.Write.{MemoryWrite, write_row}
use pg_mnestic.Engine.Persist.{WriteRequest}

unfoldable pub parse_single : Text → Option ℕ
parse_single [] = none
parse_single (n ∷ []) = some n
parse_single (n ∷ m ∷ s) = none

-- Ids printed as one character.
unfoldable pub ids : Uuids
unfolding parse_single
ids = record {
  to_string = λ id. id ∷ [];
  parse_str = parse_single;
  parse_str-to_string = λ id. refl;
}

abbrev pub empty_db : Db
empty_db = record {
  memories = [];
  sources = [];
  edges = [];
  profiles = [];
  documents = [];
  chunks = [];
  next_id = 1;
  now = 100;
}

unfoldable pub ascii_lower : Text → Text
unfolding to_ascii_lowercase
ascii_lower = map to_ascii_lowercase

abbrev pub lives_in : Text → Temporal → Candidate
lives_in city when = record {
  content = codes "User lives in ";
  subject = some (codes "user");
  attribute = some (codes "Lives in");
  value = some city;
  single_valued = true;
  mem_type = fact;
  confidence = 900;
  is_static = false;
  temporal = when;
  forget_after = none;
}

abbrev pub vector : List ℕ
vector = replicate 1536 0

abbrev pub request : List Candidate → WriteRequest
request cs = record {
  tenant_id = 1;
  actor_id = codes "alice";
  container_tags = [];
  content = codes "text";
  kind = codes "conversation";
  custom_id = none;
  as_of = some 50;
  metadata = codes "{}";
  candidates = cs;
  embeddings = map (λ c. vector) cs;
  clock = λ n. 100 + n;
}

abbrev pub after_first : {A : Type 0} → Result (A × Db) → Db
after_first (ok (a, d)) = d
after_first (err e) = empty_db

abbrev pub first_result : {A : Type 0} → A → Result (A × Db) → A
first_result a (ok (b, d)) = b
first_result a (err e) = a

-- The write of a fact of `alice` on where the user lives.
abbrev pub write_of : Text → Temporal → MemoryWrite
write_of city when = record {
  tenant_id = 1;
  actor_id = codes "alice";
  container_tags = [];
  source_id = 1;
  embedding = [];
  metadata = codes "{}";
  subject = some (codes "user");
  attribute = some (codes "location");
  single_valued = true;
  as_of = none;
  cand = lives_in city when;
  written_at = 100;
}

-- NYC, from 50 on, as the latest row.
abbrev pub nyc_row : MemoryRow
nyc_row =
    new_row (write_row (write_of (codes "NYC") (as_of 50)) true none 50 none) (span (some 50) none)
      1 100

abbrev pub nyc_db : Db
nyc_db = record empty_db { memories = nyc_row ∷ []; next_id = 2 }

abbrev pub pending_row : ℕ → Time → SourceRow
pending_row id at = record {
  id = id;
  tenant_id = 1;
  actor_id = codes "alice";
  container_tags = [];
  kind = codes "conversation";
  raw = codes "text";
  custom_id = some (id ∷ []);
  needs_extraction = true;
  ingested_at = at;
  claimed_at = none;
  metadata = codes "{}";
}

abbrev pub pending_db : Db
pending_db = record empty_db { sources = pending_row 2 40 ∷ pending_row 1 30 ∷ []; next_id = 3 }
