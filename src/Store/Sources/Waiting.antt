-- ===== src/Store/Sources/Waiting.antt =====
-- How many sources wait for a worker, and what the statements do to that.
use pg_mnestic.Prelude.{
  ℕ, suc, ◌+◌, ◌≤◌, ◌≡◌, refl, ◌∙◌, ap, inl, inr, Bool, true, false, ◌&&◌, List, [], ◌∷◌, map, none,
  some, arith, if◌then◌else◌, any, ◌==◌, filter, length, All, Bool-cases, Option-cases,
}
use pg_mnestic.Core.Types.{Time}
use pg_mnestic.Store.Db.{Db, SourceRow, Error, ok, err}
use pg_mnestic.Store.Sources.{
  PendingSource, is_claimable, is_offered, is_held, extracted, oldest, stamp, claim_pending_source,
}
use pg_mnestic.Store.Sources.Lease.{oldest-All}

-- How many of the tenant's sources a claim at `now` may choose from.
unfoldable pub waiting : ℕ → ℕ → Time → List SourceRow → ℕ
waiting tenant_id lease now ss = length (filter (is_claimable tenant_id now lease) ss)

-- A stamp within the lease takes the rows with its id away from those that wait.
stamp-waiting :
    (tenant_id id lease : ℕ) (at now : Time) (ss : List SourceRow)
    → now ≤ at + lease
    → waiting tenant_id lease now (map (stamp tenant_id id at) ss)
        + length (filter (λ s. is_claimable tenant_id now lease s && s.id == id) ss)
      ≤ waiting tenant_id lease now ss
unfolding waiting
stamp-waiting tenant_id id lease at now [] h = omega arith
stamp-waiting tenant_id id lease at now (s ∷ ss) h =
    let ih = stamp-waiting tenant_id id lease at now ss h in
    elim (Bool-cases (s.tenant_id == tenant_id && s.id == id)) [
      | inl e ↦ elim (Bool-cases (is_claimable tenant_id now lease s)) [
        | inl c ↦ ground arith
        | inr c ↦ ground arith
      ]
      | inr e ↦ elim (Bool-cases (is_claimable tenant_id now lease s)) [
        | inl c ↦ ground arith
        | inr c ↦ ground arith
      ]
    ]

&&-left : (a b : Bool) → (a && b) ≡ true → a ≡ true
&&-left a b h = ground arith

-- What can be claimed now can be claimed later.
claimable-later :
    (tenant_id lease : ℕ) (now later : Time) (s : SourceRow)
    → now ≤ later
    → is_claimable tenant_id now lease s ≡ true
    → is_claimable tenant_id later lease s ≡ true
claimable-later tenant_id lease now later s h c = elim (Option-cases s.claimed_at) [
  | inl e ↦ ground arith
  | inr (t, e) ↦ ground arith
]

-- Each row that is offered counts among those that wait later with its id.
offered-counts :
    (tenant_id lease : ℕ) (locked : ℕ → Bool) (now later : Time) (ss rest : List SourceRow)
    → now ≤ later
    → ((id : ℕ)
        → length (filter (λ s. is_claimable tenant_id later lease s && s.id == id) ss)
          ≤ length (filter (λ s. is_claimable tenant_id later lease s && s.id == id) rest))
    → All
        (λ (x : SourceRow).
          1 ≤ length (filter (λ s. is_claimable tenant_id later lease s && s.id == x.id) rest))
        (filter (is_offered tenant_id now lease locked) ss)
offered-counts tenant_id lease locked now later [] rest h up = tt
offered-counts tenant_id lease locked now later (s ∷ ss) rest h up =
    let ih = offered-counts tenant_id lease locked now later ss rest h (λ id.
      let more = up id in
      elim (Bool-cases (is_claimable tenant_id later lease s && s.id == id)) [
        | inl e ↦ ground arith
        | inr e ↦ ground arith
      ]) in
    elim (Bool-cases (is_offered tenant_id now lease locked s)) [
      | inr c ↦ rw c ih
      | inl c ↦
          let claimable : is_claimable tenant_id now lease s ≡ true =
            &&-left (is_claimable tenant_id now lease s) _ c in
          let then_too = claimable-later tenant_id lease now later s h claimable in
          let more = up s.id in rw c (ground arith, ih)
    ]

oldest-none : (ss : List SourceRow) → oldest ss ≡ none → ss ≡ []
unfolding oldest
oldest-none [] h = refl
oldest-none (s ∷ ss) h = elim (Option-cases (oldest ss)) [
  | inl e ↦ ground arith
  | inr (t, e) ↦ ground arith
]

filter-nil : (p : SourceRow → Bool) (ss : List SourceRow) → filter p ss ≡ [] → any p ss ≡ false
filter-nil p [] h = refl
filter-nil p (s ∷ ss) h = elim (Bool-cases (p s)) [
  | inl e ↦ ground arith
  | inr e ↦ let ih = filter-nil p ss (ground arith) in ground arith
]

-- A claim takes one from those that wait, at any time within its lease.
pub claim-waiting :
    (tenant_id lease : ℕ) (locked : ℕ → Bool) (later : Time) (d d' : Db) (p : PendingSource)
    → claim_pending_source tenant_id lease locked d ≡ ok (some p, d')
    → d.now ≤ later
    → later ≤ d.now + lease
    → suc (waiting tenant_id lease later d'.sources) ≤ waiting tenant_id lease later d.sources
unfolding claim_pending_source
claim-waiting tenant_id lease locked later d d' p h from within =
    elim (Option-cases (oldest (filter (is_offered tenant_id d.now lease locked) d.sources))) [
      | inl e ↦ ground arith
      | inr (s, e) ↦
          let rows : d'.sources ≡ map (stamp tenant_id s.id d.now) d.sources = ground arith in
          let one =
            oldest-All
              (λ x.
                1
                ≤ length
                    (filter (λ y. is_claimable tenant_id later lease y && y.id == x.id) d.sources))
              (filter (is_offered tenant_id d.now lease locked) d.sources) s
              (offered-counts tenant_id lease locked d.now later d.sources d.sources from
                (λ id. omega arith))
              e in
          let less = stamp-waiting tenant_id s.id lease d.now later d.sources within in
          let same = ap (waiting tenant_id lease later) rows in omega arith
    ]

-- What is not offered now was not offered before.
offered-earlier :
    (tenant_id lease : ℕ) (locked : ℕ → Bool) (now later : Time) (ss : List SourceRow)
    → now ≤ later
    → any (is_offered tenant_id later lease locked) ss ≡ false
    → any (is_offered tenant_id now lease locked) ss ≡ false
offered-earlier tenant_id lease locked now later [] h free = refl
offered-earlier tenant_id lease locked now later (s ∷ ss) h free =
    let ih = offered-earlier tenant_id lease locked now later ss h (ground arith) in
    let too = claimable-later tenant_id lease now later s h in
    elim (Bool-cases (is_claimable tenant_id now lease s)) [
      | inl c ↦ let t = too c in ground arith
      | inr c ↦ rw c ih
    ]

-- A claim that gets nothing leaves only sources that are locked, of those that could be claimed then
-- or before.
pub claim-none :
    (tenant_id lease : ℕ) (locked : ℕ → Bool) (earlier : Time) (d d' : Db)
    → claim_pending_source tenant_id lease locked d ≡ ok (none, d')
    → earlier ≤ d.now
    → any (is_offered tenant_id earlier lease locked) d'.sources ≡ false
unfolding claim_pending_source
claim-none tenant_id lease locked earlier d d' h from =
    elim (Option-cases (oldest (filter (is_offered tenant_id d.now lease locked) d.sources))) [
      | inr (s, e) ↦ ground arith
      | inl e ↦
          let same : d'.sources ≡ d.sources = ground arith in
          ap (any (is_offered tenant_id earlier lease locked)) same
          ∙ offered-earlier tenant_id lease locked earlier d.now d.sources from (
              filter-nil (is_offered tenant_id d.now lease locked) d.sources
                (oldest-none (filter (is_offered tenant_id d.now lease locked) d.sources) e))
    ]

pub claim-err :
    (tenant_id lease : ℕ) (locked : ℕ → Bool) (d : Db) (e : Error)
    → claim_pending_source tenant_id lease locked d ≡ err e
    → ⊥
unfolding claim_pending_source
claim-err tenant_id lease locked d e h =
    elim (Option-cases (oldest (filter (is_offered tenant_id d.now lease locked) d.sources))) [
      | inl f ↦ ground arith
      | inr (s, f) ↦ ground arith
    ]

-- Those that wait at a time also wait later.
pub waiting-later :
    (tenant_id lease : ℕ) (now later : Time) (ss : List SourceRow)
    → now ≤ later
    → waiting tenant_id lease now ss ≤ waiting tenant_id lease later ss
unfolding waiting
waiting-later tenant_id lease now later [] h = omega arith
waiting-later tenant_id lease now later (s ∷ ss) h =
    let ih = waiting-later tenant_id lease now later ss h in
    let too = claimable-later tenant_id lease now later s h in
    elim (Bool-cases (is_claimable tenant_id now lease s)) [
      | inl c ↦ let t = too c in rw (c, t) (omega arith)
      | inr c ↦ elim (Bool-cases (is_claimable tenant_id later lease s)) [
        | inl t ↦ rw (c, t) (omega arith)
        | inr t ↦ rw (c, t) ih
      ]
    ]

-- A release lets no further row wait.
pub release-waiting :
    (tenant_id id lease owner : ℕ) (at now : Time) (ss : List SourceRow)
    → waiting tenant_id lease now (map (λ s. if is_held owner id at s then extracted s else s) ss)
      ≤ waiting tenant_id lease now ss
unfolding waiting
release-waiting tenant_id id lease owner at now [] = omega arith
release-waiting tenant_id id lease owner at now (s ∷ ss) =
    let ih = release-waiting tenant_id id lease owner at now ss in
    elim (Bool-cases (is_held owner id at s)) [
      | inl e ↦ elim (Bool-cases (is_claimable tenant_id now lease s)) [
        | inl c ↦ ground arith
        | inr c ↦ ground arith
      ]
      | inr e ↦ elim (Bool-cases (is_claimable tenant_id now lease s)) [
        | inl c ↦ ground arith
        | inr c ↦ ground arith
      ]
    ]

pub waiting-zero :
    (tenant_id lease : ℕ) (now : Time) (ss : List SourceRow)
    → waiting tenant_id lease now ss ≡ 0
    → any (is_claimable tenant_id now lease) ss ≡ false
unfolding waiting
waiting-zero tenant_id lease now [] h = refl
waiting-zero tenant_id lease now (s ∷ ss) h =
    let ih = waiting-zero tenant_id lease now ss in
    elim (Bool-cases (is_claimable tenant_id now lease s)) [
      | inl c ↦ ground arith
      | inr c ↦ rw c (ih (ground arith))
    ]
