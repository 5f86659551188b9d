-- ===== src/Store/Sources/Lease.antt =====
-- A claimed source is left to its worker until the lease lapses.
use pg_mnestic.Prelude.{
  ℕ, ◌+◌, ◌≤◌, ◌≡◌, refl, Bool, true, false, ◌&&◌, List, [], ◌∷◌, map, some, arith, leb, ◌==◌,
  if◌then◌else◌, filter, All, Bool-cases, Option-cases, inl, inr, subst, ap, sym, ◌∙◌,
}
use pg_mnestic.Core.Types.{Time}
use pg_mnestic.Store.Db.{Db, SourceRow, ok}
use pg_mnestic.Store.Sources.{PendingSource, is_offered, oldest, stamp, claim_pending_source}

pub oldest-All :
    (P : SourceRow → Type 0) (ss : List SourceRow) (s : SourceRow)
    → All P ss
    → oldest ss ≡ some s
    → P s
unfolding oldest
oldest-All P [] s a h = ground arith
oldest-All P (x ∷ ss) s a h = elim (Option-cases (oldest ss)) [
  | inl e ↦ let same : x ≡ s = ground arith in subst P same a.0
  | inr (t, e) ↦ elim (Bool-cases (leb x.ingested_at t.ingested_at)) [
    | inl c ↦ let same : x ≡ s = ground arith in subst P same a.0
    | inr c ↦ let same : t ≡ s = ground arith in oldest-All P ss s a.1 (e ∙ ap some same)
  ]
]

kept :
    (P : SourceRow → Type 0) (b : Bool) (x : SourceRow) (xs : List SourceRow)
    → (b ≡ true → P x)
    → All P xs
    → All P (if b then x ∷ xs else xs)
kept P true x xs h a = (h refl, a)
kept P false x xs h a = a

-- Within the lease no row with the stamped id is claimable.
stamped-others :
    (tenant_id id lease : ℕ) (locked : ℕ → Bool) (at now : Time) (ss : List SourceRow)
    → now ≤ at + lease
    → All
        (λ s. (s.id == id) ≡ false)
        (filter (is_offered tenant_id now lease locked) (map (stamp tenant_id id at) ss))
stamped-others tenant_id id lease locked at now [] h = tt
stamped-others tenant_id id lease locked at now (s ∷ ss) h =
    let ih = stamped-others tenant_id id lease locked at now ss h in
    kept (λ x. (x.id == id) ≡ false)
      (is_offered tenant_id now lease locked (stamp tenant_id id at s)) (stamp tenant_id id at s) _
      (λ c. elim (Bool-cases (s.tenant_id == tenant_id && s.id == id)) [
        | inl e ↦ ground arith
        | inr e ↦ ground arith
      ])
      ih

-- While the lease of a claim runs, another claim of the tenant gets another source, whatever rows
-- are locked.
pub claim_pending_source_other :
    (tenant_id lease : ℕ) (before locked : ℕ → Bool) (d d' d'' : Db) (p q : PendingSource)
    (now : Time)
    → claim_pending_source tenant_id lease before d ≡ ok (some p, d')
    → now ≤ d.now + lease
    → claim_pending_source tenant_id lease locked (record d' { now = now }) ≡ ok (some q, d'')
    → (q.id == p.id) ≡ false
unfolding claim_pending_source
claim_pending_source_other tenant_id lease before locked d d' d'' p q now h within g =
    elim (Option-cases (oldest (filter (is_offered tenant_id d.now lease before) d.sources))) [
      | inl e ↦ ground arith
      | inr (s, e) ↦
          elim (Option-cases (oldest (filter (is_offered tenant_id now lease locked) d'.sources))) [
            | inl f ↦ ground arith
            | inr (t, f) ↦
                let first : p.id ≡ s.id = ground arith in
                let second : q.id ≡ t.id = ground arith in
                let rows : d'.sources ≡ map (stamp tenant_id s.id d.now) d.sources = ground arith in
                let differs : (t.id == s.id) ≡ false =
                  oldest-All (λ x. (x.id == s.id) ≡ false)
                    (filter (is_offered tenant_id now lease locked)
                      (map (stamp tenant_id s.id d.now) d.sources))
                    t (stamped-others tenant_id s.id lease locked d.now now d.sources within)
                    (ap (λ x. oldest (filter (is_offered tenant_id now lease locked) x)) (sym rows)
                      ∙ f) in
                rw (first, second) differs
          ]
    ]
