-- ===== src/Engine/Forget/Content.antt =====
-- `forget_by_content`: what the extractor finds in the content names the memories to forget.
use pg_mnestic.Prelude.{
  ℕ, Bool, true, false, not, List, [], ◌∷◌, ◌++◌, Option, none, some, ◌==◌, if◌then◌else◌, is_empty,
}
use pg_mnestic.Text.{Text, codes, trim, eq_ignore_ascii_case}
use pg_mnestic.Core.Types.{Candidate, ExistingMatch}
use pg_mnestic.Store.Db.{Tx, ◌>>=◌, ◌>>◌, return, lift, get_db}
use pg_mnestic.Store.Memories.{Uuids, latest_matches, forget_memory_by_id}
use pg_mnestic.Engine.Write.{parse_id}
use pg_mnestic.Engine.Persist.{nonempty_key, opt_map, subject_key, attribute_key}
use pg_mnestic.Engine.Forget.{refresh_if}

-- `want_value`.
abbrev pub want_value : Candidate → Option Text
want_value cand = nonempty_key (opt_map trim cand.value)

-- `value_matches`.
unfoldable pub value_matches : Option Text → Option Text → Bool
value_matches none stored = true
value_matches (some w) (some stored) = eq_ignore_ascii_case w (trim stored)
value_matches (some w) none = false

module _ (uuids : Uuids) (tenant_id : ℕ) (actor_id : Text) where
  -- The loop over the matches of one key.
  unfoldable pub forget_matches : Option Text → List ExistingMatch → List ℕ → Tx (List ℕ)
  unfolding value_matches parse_id forget_memory_by_id
  forget_matches want [] forgotten = return forgotten
  forget_matches want (m ∷ ms) forgotten =
      if value_matches want m.value
      then (do
        id ← lift (parse_id uuids m.id)
        n ← forget_memory_by_id tenant_id actor_id id (some (codes "forgotten by content"))
        forget_matches want ms (if n == 1 then forgotten ++ id ∷ [] else forgotten))
      else forget_matches want ms forgotten

  -- `let (Some(s), Some(a)) = .. else { continue }`, and the matches of the key.
  unfoldable pub forget_keyed : Option Text → Option Text → Option Text → List ℕ → Tx (List ℕ)
  unfolding forget_matches latest_matches
  forget_keyed none attribute want forgotten = return forgotten
  forget_keyed (some s) none want forgotten = return forgotten
  forget_keyed (some s) (some a) want forgotten = do
    d ← get_db
    forget_matches want (latest_matches uuids tenant_id actor_id s a d.memories) forgotten

  module _ (to_lowercase : Text → Text) (synonyms : List (Text × Text)) where
    -- `for cand in &candidates`.
    unfoldable pub forget_each : List Candidate → List ℕ → Tx (List ℕ)
    unfolding forget_keyed
    forget_each [] forgotten = return forgotten
    forget_each (c ∷ cs) forgotten = do
      more ←
          forget_keyed (subject_key uuids to_lowercase synonyms c)
            (attribute_key uuids to_lowercase synonyms c) (want_value c) forgotten
      forget_each cs more

    -- `forget_by_content`, for the candidates that were extracted.
    unfoldable pub forget_by_content : List Candidate → Tx (List ℕ)
    unfolding forget_each refresh_if
    forget_by_content candidates = do
      forgotten ← forget_each candidates []
      refresh_if (not (is_empty forgotten)) tenant_id actor_id
      return forgotten
