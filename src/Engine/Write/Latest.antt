-- ===== src/Engine/Write/Latest.antt =====
-- The key of a single-valued fact that was written as the latest has that fact's value only.
use pg_mnestic.Prelude.{
  ℕ, ◌≡◌, refl, sym, ◌∙◌, inl, inr, Bool, true, false, ◌&&◌, List, [], ◌∷◌, map, Option, none, some,
  arith, filter, any, All, Bool-cases, subst,
}
use pg_mnestic.Text.{Text, text_eq, opt_text_eq}
use pg_mnestic.Text.Equality.{opt_text_eq_sound, opt_text_eq_self}
use pg_mnestic.Core.Types.{Time, ExistingMatch}
use pg_mnestic.Core.Resolve.{prior_ids, decide, duplicate_of, supersede_or_insert}
use pg_mnestic.Store.Db.{MemoryRow, ok, Db, ◌>>=◌, >>=-eq-ok}
use pg_mnestic.Store.Memories.{Uuids, has_key, is_current, latest_matches, new_row}
use pg_mnestic.Store.Memories.Invariant.{IsValid, close_prior-Keeps}
use pg_mnestic.Engine.Write.{
  AddResult, MemoryWrite, close_priors, chosen_priors, write_insert, write_row, supersede_newer,
  apply_supersede, apply_action, find_matches, match_keyed, resolve_write, interval_from,
  interval_until, newest_start, is_newer, later_of,
}
use pg_mnestic.Engine.Write.Current.{
  lags, LagsIn, lagging_are_priors, lagging_are_chosen, close_rows-LagsIn,
}
use pg_mnestic.Engine.Write.Closing.{
  close_prior-eq-ok, insert_memory_full-row, close_priors-Closing,
}

module _ (uuids : Uuids) (tenant_id : ℕ) (actor_id subject attribute : Text)
    (value : Option Text) where
  abbrev NoneLags : List MemoryRow → Type 0
  NoneLags = All (LagsIn uuids tenant_id actor_id subject attribute value [])

  close_priors-LagsIn :
      (at : Time) (newest : Option Time) (ps : List ExistingMatch) (closed : List ℕ)
      (prior : Option ℕ) (d d' : Db) (r : List ℕ × Option ℕ)
      → close_priors uuids tenant_id at newest ps closed prior d ≡ ok (r, d')
      → IsValid d
      → All
          (LagsIn uuids tenant_id actor_id subject attribute value (map (λ m. m.id) ps))
          d.memories
      → NoneLags d'.memories
  unfolding close_priors
  close_priors-LagsIn at newest [] closed prior d d' r h v l =
      let same : d ≡ d' = ground arith in subst (λ (x : Db). NoneLags x.memories) same l
  close_priors-LagsIn at newest (p ∷ ps) closed prior d d' r h v l =
      let c = close_priors-Closing uuids tenant_id at newest p ps closed prior d d' r h in
      close_priors-LagsIn at newest ps _ _ c.mid d' r c.others
        (close_prior-Keeps tenant_id c.pid at d c.mid 1 c.ran v)
        (close_rows-LagsIn uuids tenant_id actor_id subject attribute value p.id
          (map (λ m. m.id) ps) c.pid d.next_id at d.now d.memories c.mid.memories c.parsed v.ids
          (close_prior-eq-ok tenant_id c.pid at d c.mid 1 c.ran) l)

  -- A table in which no row lags has current matches of the value alone.
  none_lag_current :
      (rs : List MemoryRow)
      → NoneLags rs
      → All
          (λ (m : ExistingMatch). m.value ≡ value)
          (latest_matches uuids tenant_id actor_id subject attribute rs)
  unfolding latest_matches
  none_lag_current [] l = tt
  none_lag_current (r ∷ rs) l =
      elim (Bool-cases (has_key tenant_id actor_id subject attribute r && is_current r)) [
        | inr e ↦ rw e (none_lag_current rs l.1)
        | inl e ↦
            rw e (opt_text_eq_sound r.value value (not_lagging l.0 e), none_lag_current rs l.1)
      ]
    where
      not_lagging :
          LagsIn uuids tenant_id actor_id subject attribute value [] r
          → (has_key tenant_id actor_id subject attribute r && is_current r) ≡ true
          → opt_text_eq r.value value ≡ true
      not_lagging (inl h) e = ground arith
      not_lagging (inr i) e = absurd i

  same_value-lags :
      (r : MemoryRow)
      → r.value ≡ value
      → lags uuids tenant_id actor_id subject attribute value r ≡ false
  same_value-lags r h = ground (arith, opt_text_eq_self value)

insert-NoneLags :
    (uuids : Uuids) (w : MemoryWrite) (s a : Text) (latest : Bool) (prior : Option ℕ) (from : Time)
    (until : Option Time) (d d' : Db) (id : ℕ)
    → write_insert w latest prior from until d ≡ ok (id, d')
    → NoneLags uuids w.tenant_id w.actor_id s a w.cand.value d.memories
    → NoneLags uuids w.tenant_id w.actor_id s a w.cand.value d'.memories
unfolding write_insert write_row new_row
insert-NoneLags uuids w s a latest prior from until d d' id h l =
    let (t, e, grown) = insert_memory_full-row (write_row w latest prior from until) d d' id h in
    rw grown (
      inl (
          same_value-lags uuids w.tenant_id w.actor_id s a w.cand.value
            (new_row (write_row w latest prior from until) t d.next_id d.now) refl),
      l,
    )

supersede_newer-current :
    (uuids : Uuids) (w : MemoryWrite) (s a : Text) (ps : List ExistingMatch) (result r : AddResult)
    (d d' : Db)
    → supersede_newer uuids w ps result d ≡ ok (r, d')
    → IsValid d
    → All (LagsIn uuids w.tenant_id w.actor_id s a w.cand.value (map (λ m. m.id) ps)) d.memories
    → NoneLags uuids w.tenant_id w.actor_id s a w.cand.value d'.memories
unfolding supersede_newer
supersede_newer-current uuids w s a ps result r d d' h v l =
    let (c, mid, e, g) =
      >>=-eq-ok
        (close_priors uuids w.tenant_id (interval_from w) (newest_start ps) ps result.superseded
          none)
        _ d h in
    let settled =
      close_priors-LagsIn uuids w.tenant_id w.actor_id s a w.cand.value _ _ ps _ _ d mid c e v l in
    let (id, last, f, k) =
      >>=-eq-ok (write_insert w true c.1 (interval_from w) (interval_until w)) _ mid g in
    let same : last ≡ d' = ground arith in
    subst (λ (x : Db). NoneLags uuids w.tenant_id w.actor_id s a w.cand.value x.memories) same
      (insert-NoneLags uuids w s a true c.1 _ _ mid last id f settled)

newest_start-filter :
    (from : Time) (p : ExistingMatch → Bool) (ps : List ExistingMatch)
    → is_newer from (newest_start ps) ≡ true
    → is_newer from (newest_start (filter p ps)) ≡ true
unfolding newest_start
newest_start-filter from p [] h = refl
newest_start-filter from p (m ∷ ms) h = elim (Bool-cases (p m)) [
  | inl e ↦
      rw e (
        later_newer m.valid_from _ _ h
          (newest_start-filter from p ms (tail_newer m.valid_from _ h)))
  | inr e ↦ rw e (newest_start-filter from p ms (tail_newer m.valid_from _ h))
]
  where
    tail_newer : (a b : Option Time) → is_newer from (later_of a b) ≡ true → is_newer from b ≡ true
    tail_newer none b h = h
    tail_newer (some a) none h = refl
    tail_newer (some a) (some b) h = ground arith

    later_newer :
        (a b c : Option Time)
        → is_newer from (later_of a b) ≡ true
        → is_newer from c ≡ true
        → is_newer from (later_of a c) ≡ true
    later_newer none b c h k = k
    later_newer (some a) none none h k = h
    later_newer (some a) none (some c) h k = ground arith
    later_newer (some a) (some b) none h k = ground arith
    later_newer (some a) (some b) (some c) h k = ground arith

module _ (uuids : Uuids) (w : MemoryWrite) (s a : Text) (result : AddResult) (d : Db) where
  abbrev pub matches : List ExistingMatch
  matches = latest_matches uuids w.tenant_id w.actor_id s a d.memories

  pub resolve_write-keyed :
      w.subject ≡ some s
      → w.attribute ≡ some a
      → resolve_write uuids w result d
        ≡ apply_action uuids w matches (decide w.cand matches) result d
  unfolding resolve_write find_matches match_keyed
  resolve_write-keyed es ea = λ i.
      (match_keyed uuids w (es i) (ea i) >>= λ ms.
      apply_action uuids w ms (decide w.cand ms) result)
        d

  decide-single :
      w.cand.single_valued ≡ true
      → duplicate_of w.cand.value matches ≡ none
      → decide w.cand matches ≡ supersede_or_insert (prior_ids w.cand.value matches)
  unfolding decide
  decide-single single new = ground arith

  settle :
      (ids : List Text) (r : AddResult) (d' : Db)
      → prior_ids w.cand.value matches ≡ ids
      → is_newer (interval_from w) (newest_start matches) ≡ true
      → IsValid d
      → apply_action uuids w matches (supersede_or_insert ids) result d ≡ ok (r, d')
      → NoneLags uuids w.tenant_id w.actor_id s a w.cand.value d'.memories
  unfolding supersede_or_insert apply_action apply_supersede
  settle [] r d' e newer v h =
      let (id, last, f, k) =
        >>=-eq-ok (write_insert w true none (interval_from w) (interval_until w)) _ d h in
      let same : last ≡ d' = ground arith in
      let none_lag =
        subst (λ ns. All (LagsIn uuids w.tenant_id w.actor_id s a w.cand.value ns) d.memories) e
          (lagging_are_priors uuids w.tenant_id w.actor_id s a w.cand.value d.memories) in
      subst (λ (x : Db). NoneLags uuids w.tenant_id w.actor_id s a w.cand.value x.memories) same
        (insert-NoneLags uuids w s a true none _ _ d last id f none_lag)
  settle (x ∷ xs) r d' e newer v h =
      let later =
        newest_start-filter (interval_from w) (λ m. any (text_eq m.id) (x ∷ xs)) matches newer in
      let priors =
        subst (λ ns. All (LagsIn uuids w.tenant_id w.actor_id s a w.cand.value ns) d.memories) e
          (lagging_are_priors uuids w.tenant_id w.actor_id s a w.cand.value d.memories) in
      supersede_newer-current uuids w s a (chosen_priors (x ∷ xs) matches) result r d d'
        (rw later at h) v
        (lagging_are_chosen uuids w.tenant_id w.actor_id s a w.cand.value (x ∷ xs) d.memories
          priors)

-- After a successful write of a single-valued fact with a key, whose value no current row of the key
-- carries and which starts after every current row of the key, each current row of the key carries
-- the fact's value.
pub resolve_write-latest :
    (uuids : Uuids) (w : MemoryWrite) (s a : Text) (result r : AddResult) (d d' : Db)
    → w.subject ≡ some s
    → w.attribute ≡ some a
    → w.cand.single_valued ≡ true
    → duplicate_of w.cand.value (latest_matches uuids w.tenant_id w.actor_id s a d.memories) ≡ none
    → is_newer
        (interval_from w)
        (newest_start (latest_matches uuids w.tenant_id w.actor_id s a d.memories))
      ≡ true
    → IsValid d
    → resolve_write uuids w result d ≡ ok (r, d')
    → All
        (λ (m : ExistingMatch). m.value ≡ w.cand.value)
        (latest_matches uuids w.tenant_id w.actor_id s a d'.memories)
resolve_write-latest uuids w s a result r d d' es ea single new newer v h =
    let act = sym (resolve_write-keyed uuids w s a result d es ea) ∙ h in
    none_lag_current uuids w.tenant_id w.actor_id s a w.cand.value d'.memories (
      settle uuids w s a result d _ r d' refl newer v
        (rw (decide-single uuids w s a result d single new) at act))
