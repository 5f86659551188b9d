-- ===== src/Engine/Worker/Tests.antt =====
-- A batch in which the first source fails.
use pg_mnestic.Prelude.{
  ℕ, ◌+◌, Bool, ◌&&◌, List, [], ◌∷◌, Option, none, some, ◌==◌, if◌then◌else◌, min,
}
use pg_mnestic.Text.{Text, codes}
use pg_mnestic.Core.Types.{Candidate}
use pg_mnestic.Store.Db.{Db, Result, ok, err, model, Error, db, other}
use pg_mnestic.Store.Sources.{PendingSource}
use pg_mnestic.Engine.Samples.{empty_db, pending_row}

abbrev queue : Db
queue = record empty_db { sources = pending_row 1 10 ∷ pending_row 2 20 ∷ [] }

-- The extractor fails on the older source.
abbrev fails_first : PendingSource → Text → Result (List Candidate)
fails_first p t = if p.id == 1 then err (model (codes "timeout")) else ok []

abbrev no_vectors : PendingSource → List Text → Result (List (List ℕ))
no_vectors p ts = ok []

-- A microsecond to a round.
abbrev ticking : ℕ → ℕ → Db → Db
ticking round step d = record d { now = 100 + min round 9 }

-- No connection in the third round.
abbrev breaks : ℕ → Option Error
breaks round = if round == 2 then some (db other) else none

-- The newer source is locked in the first round.
abbrev contended : ℕ → ℕ → Bool
contended round id = round == 0 && id == 2
