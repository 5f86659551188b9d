-- ===== src/Engine/Write/History.antt =====
-- A fact that is not newer than what it contradicts is recorded as history: what it adds, and when
-- the database refuses it.
use pg_mnestic.Prelude.{
  ℕ, ◌≤◌, ◌≡◌, refl, sym, ◌∙◌, ap, ◌⊎◌, inl, inr, true, false, List, [], ◌∷◌, ◌++◌, none, some,
  arith, All, All-imp, In, subst,
}
use pg_mnestic.Text.{Text, opt_text_eq}
use pg_mnestic.Core.Types.{Time, supersede}
use pg_mnestic.Core.Resolve.{decide}
use pg_mnestic.Store.Span.{span}
use pg_mnestic.Store.Db.{MemoryRow, ok, err, db, exclusion_violation, Db, Result-cases}
use pg_mnestic.Store.Memories.{
  Uuids, has_key, is_guarded, latest_matches, segment_starts, insert_row, new_row,
  insert_memory_full, passes_checks, conflicts,
}
use pg_mnestic.Engine.Write.{
  AddResult, MemoryWrite, write_insert, write_row, record_keyed, record_history, apply_supersede,
  apply_action, resolve_write, interval_from, newest_start, is_newer, chosen_priors,
}
use pg_mnestic.Engine.Write.Latest.{resolve_write-keyed, matches}
use pg_mnestic.Engine.Write.Segments.{
  EndsAfter, EndsBy, next_segment-bound, earlier_end-EndsBy, history_end, history_end-EndsAfter,
  tstzrange-proper, holds_at, overlaps-holds_at, any-of_In, text_eq_flip, opt_key_eq_flip,
}

pub record HistoryRow (w : MemoryWrite) (starts : List Time) (r : MemoryRow) : Type 0 where
  pub not_latest : r.is_latest ≡ false
  pub validity : r.valid_time ≡ span (some (interval_from w)) (history_end w starts)
  pub proper : EndsAfter (interval_from w) (history_end w starts)
  pub before_later : All (λ s. (s ≤ interval_from w) ⊎ EndsBy (history_end w starts) s) starts

not_latest-current :
    (uuids : Uuids) (tenant_id : ℕ) (actor_id s a : Text) (r : MemoryRow) (rs : List MemoryRow)
    → r.is_latest ≡ false
    → latest_matches uuids tenant_id actor_id s a (r ∷ rs)
      ≡ latest_matches uuids tenant_id actor_id s a rs
unfolding latest_matches
not_latest-current uuids tenant_id actor_id s a r rs h = ground arith

module _ (uuids : Uuids) (w : MemoryWrite) (s a : Text) (result : AddResult) (d : Db) where
  abbrev starts : List Time
  starts = segment_starts w.tenant_id w.actor_id s a d.memories

  abbrev history_row : MemoryRow
  unfolding new_row write_row
  history_row =
      new_row (write_row w false none (interval_from w) (history_end w starts))
        (span (some (interval_from w)) (history_end w starts)) d.next_id d.now

  history_row-HistoryRow : HistoryRow w starts history_row
  unfolding history_row
  history_row-HistoryRow = record {
    not_latest = refl;
    validity = refl;
    proper = history_end-EndsAfter w starts;
    before_later =
        All-imp (λ x. elim [ inl e ↦ inl e | inr e ↦ inr (earlier_end-EndsBy _ _ x e) ]) starts
          (next_segment-bound (interval_from w) starts);
  }

  -- The insertion comes down to that of one row.
  record_keyed-insert_row :
      record_keyed w (some s) (some a) result d ≡ (elim (insert_row history_row d) [
        | ok (id, d') ↦ ok (record result { inserted = result.inserted ++ id ∷ [] }, d')
        | err e ↦ err e
      ])
  unfolding record_keyed write_insert insert_memory_full history_row
  record_keyed-insert_row =
      rw
        (tstzrange-proper (interval_from w) (history_end w starts) (history_end-EndsAfter w starts))

  insert_row-grown :
      (row : MemoryRow) (d' : Db) (id : ℕ)
      → insert_row row d ≡ ok (id, d')
      → d'.memories ≡ row ∷ d.memories
  unfolding insert_row
  insert_row-grown row d' id h = ground arith

  record_keyed-grown :
      (r : AddResult) (d' : Db)
      → record_keyed w (some s) (some a) result d ≡ ok (r, d')
      → d'.memories ≡ history_row ∷ d.memories
  record_keyed-grown r d' h = elim (Result-cases (insert_row history_row d)) [
    | inr (e, f) ↦ ground (arith, record_keyed-insert_row)
    | inl ((id, last), f) ↦
        let same : last ≡ d' = ground (arith, record_keyed-insert_row) in
        subst (λ (x : Db). x.memories ≡ history_row ∷ d.memories) same
          (insert_row-grown history_row last id f)
  ]

  -- A row of the key that may not be overlapped, at the start of the historical row.
  history_row-conflicts :
      (row : MemoryRow)
      → w.subject ≡ some s
      → w.attribute ≡ some a
      → w.single_valued ≡ true
      → has_key w.tenant_id w.actor_id s a row ≡ true
      → is_guarded row ≡ true
      → holds_at row.valid_time (interval_from w) ≡ true
      → conflicts history_row row ≡ true
  unfolding conflicts history_row has_key opt_text_eq
  history_row-conflicts row es ea single key guarded at = ground (
    arith,
    overlaps-holds_at (interval_from w) (history_end w starts) row.valid_time
        (history_end-EndsAfter w starts) at,
    text_eq_flip row.actor_id w.actor_id,
    opt_key_eq_flip row.subject s,
    opt_key_eq_flip row.attribute a,
  )

  insert_row-conflict :
      (r row : MemoryRow)
      → passes_checks r ≡ true
      → In row d.memories
      → conflicts r row ≡ true
      → insert_row r d ≡ err (db exclusion_violation)
  unfolding insert_row
  insert_row-conflict r row ok_checks i c =
      rw (ok_checks, any-of_In (conflicts r) row d.memories i c)

  history_row-passes_checks :
      w.subject ≡ some s
      → w.attribute ≡ some a
      → w.cand.confidence ≤ 1000
      → passes_checks history_row ≡ true
  unfolding passes_checks history_row
  history_row-passes_checks es ea conf = ground arith

  record_keyed-conflict :
      (row : MemoryRow)
      → w.subject ≡ some s
      → w.attribute ≡ some a
      → w.single_valued ≡ true
      → w.cand.confidence ≤ 1000
      → In row d.memories
      → has_key w.tenant_id w.actor_id s a row ≡ true
      → is_guarded row ≡ true
      → holds_at row.valid_time (interval_from w) ≡ true
      → record_keyed w (some s) (some a) result d ≡ err (db exclusion_violation)
  record_keyed-conflict row es ea single conf i key guarded at =
      let refused =
        insert_row-conflict history_row row (history_row-passes_checks es ea conf) i
          (history_row-conflicts row es ea single key guarded at) in
      ground (arith, record_keyed-insert_row, refused)

  -- A contradiction that is not newer goes to the historical branch.
  resolve_write-late :
      (names : List Text)
      → w.subject ≡ some s
      → w.attribute ≡ some a
      → decide w.cand (matches uuids w s a result d) ≡ supersede names
      → is_newer
          (interval_from w)
          (newest_start (chosen_priors names (matches uuids w s a result d)))
        ≡ false
      → resolve_write uuids w result d ≡ record_keyed w (some s) (some a) result d
  unfolding apply_action apply_supersede record_history
  resolve_write-late names es ea act late =
      resolve_write-keyed uuids w s a result d es ea
      ∙ rw (act, late) (λ i. record_keyed w (es i) (ea i) result d)

-- A contradiction that starts no later than the priors, when it is written: one row is added, which is
-- not the latest; its validity is proper and ends no later than any known start after its own; and
-- the current rows of the key stay as they were.
pub resolve_write-history :
    (uuids : Uuids) (w : MemoryWrite) (s a : Text) (names : List Text) (result r : AddResult)
    (d d' : Db)
    → w.subject ≡ some s
    → w.attribute ≡ some a
    → decide w.cand (latest_matches uuids w.tenant_id w.actor_id s a d.memories) ≡ supersede names
    → is_newer (interval_from w) (
        newest_start
          (chosen_priors names (latest_matches uuids w.tenant_id w.actor_id s a d.memories)))
      ≡ false
    → resolve_write uuids w result d ≡ ok (r, d')
    → (row : MemoryRow) × (d'.memories ≡ row ∷ d.memories)
      × HistoryRow w (segment_starts w.tenant_id w.actor_id s a d.memories) row
      × (latest_matches uuids w.tenant_id w.actor_id s a d'.memories
          ≡ latest_matches uuids w.tenant_id w.actor_id s a d.memories)
resolve_write-history uuids w s a names result r d d' es ea act late h =
    let row = history_row uuids w s a result d in
    let good = history_row-HistoryRow uuids w s a result d in
    let grown =
      record_keyed-grown uuids w s a result d r d'
        (sym (resolve_write-late uuids w s a result d names es ea act late) ∙ h) in
    (
      row,
      grown,
      good,
      ap (latest_matches uuids w.tenant_id w.actor_id s a) grown
          ∙ not_latest-current uuids w.tenant_id w.actor_id s a row d.memories good.not_latest,
    )

-- A contradiction that starts no later than the priors is refused by the database, and so is never
-- written, wherever an active single-valued row of its key, current or historical, is valid at its
-- start: in particular one that starts when the current row starts.
pub resolve_write-refused :
    (uuids : Uuids) (w : MemoryWrite) (s a : Text) (names : List Text) (result : AddResult) (d : Db)
    (row : MemoryRow)
    → w.subject ≡ some s
    → w.attribute ≡ some a
    → w.single_valued ≡ true
    → w.cand.confidence ≤ 1000
    → decide w.cand (latest_matches uuids w.tenant_id w.actor_id s a d.memories) ≡ supersede names
    → is_newer (interval_from w) (
        newest_start
          (chosen_priors names (latest_matches uuids w.tenant_id w.actor_id s a d.memories)))
      ≡ false
    → In row d.memories
    → has_key w.tenant_id w.actor_id s a row ≡ true
    → is_guarded row ≡ true
    → holds_at row.valid_time (interval_from w) ≡ true
    → resolve_write uuids w result d ≡ err (db exclusion_violation)
resolve_write-refused uuids w s a names result d row es ea single conf act late i key guarded at =
    resolve_write-late uuids w s a result d names es ea act late
    ∙ record_keyed-conflict uuids w s a result d row es ea single conf i key guarded at
