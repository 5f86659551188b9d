-- ===== src/Engine/Write/Closing.antt =====
-- What one closing of a prior and one insertion do.
use pg_mnestic.Prelude.{
  ℕ, ◌≡◌, ◌∙◌, inl, inr, List, [], ◌∷◌, ◌++◌, Option, some, arith, ◌==◌, if◌then◌else◌, Bool-cases,
  Option-cases, ==_iff,
}
use pg_mnestic.Text.{Text}
use pg_mnestic.Core.Types.{Time, ExistingMatch}
use pg_mnestic.Store.Span.{Span, tstzrange}
use pg_mnestic.Store.Db.{ok, Db, Result-cases}
use pg_mnestic.Store.Memories.{
  Uuids, close_rows, close_prior, insert_row, new_row, insert_memory_full, NewMemoryFull,
}
use pg_mnestic.Engine.Write.{close_priors, parse_id, count_is_one, same_time}

pub close_prior-eq-ok :
    (tenant_id pid : ℕ) (at : Time) (d d' : Db) (n : ℕ)
    → close_prior tenant_id pid at d ≡ ok (n, d')
    → close_rows tenant_id pid at d.now d.memories ≡ ok (d'.memories, n)
unfolding close_prior
close_prior-eq-ok tenant_id pid at d d' n h = ground arith

parse_id-eq-ok :
    (uuids : Uuids) (s : Text) (pid : ℕ) → parse_id uuids s ≡ ok pid → uuids.parse_str s ≡ some pid
unfolding parse_id
parse_id-eq-ok uuids s pid h = ground arith

count_is_one-eq-ok : (n : ℕ) (u : Unit {0}) → count_is_one n ≡ ok u → n ≡ 1
count_is_one-eq-ok n u h = ground arith

-- A successful insertion adds one row, with the fields asked for.
pub insert_memory_full-row :
    (m : NewMemoryFull) (d d' : Db) (id : ℕ)
    → insert_memory_full m d ≡ ok (id, d')
    → (t : Span) × (tstzrange (some m.valid_from) m.valid_until ≡ some t)
      × (d'.memories ≡ new_row m t d.next_id d.now ∷ d.memories)
unfolding insert_memory_full insert_row
insert_memory_full-row m d d' id h =
    elim (Option-cases (tstzrange (some m.valid_from) m.valid_until)) [
      | inl e ↦ ground arith
      | inr (t, e) ↦ (t, e, ground arith)
    ]

-- One round of the loop of `apply_supersede`, taken apart.
pub record Closing (uuids : Uuids) (tenant_id : ℕ) (at : Time) (newest : Option Time)
    (p : ExistingMatch) (ps : List ExistingMatch) (closed : List ℕ) (prior : Option ℕ) (d d' : Db)
    (r : List ℕ × Option ℕ) : Type 0 where
  pub pid : ℕ
  pub mid : Db
  pub parsed : uuids.parse_str p.id ≡ some pid
  pub ran : close_prior tenant_id pid at d ≡ ok (1, mid)
  pub others :
      close_priors uuids tenant_id at newest ps
        (closed ++ pid ∷ [])
        (if same_time p.valid_from newest then some pid else prior)
        mid
      ≡ ok (r, d')

pub close_priors-Closing :
    (uuids : Uuids) (tenant_id : ℕ) (at : Time) (newest : Option Time) (p : ExistingMatch)
    (ps : List ExistingMatch) (closed : List ℕ) (prior : Option ℕ) (d d' : Db)
    (r : List ℕ × Option ℕ)
    → close_priors uuids tenant_id at newest (p ∷ ps) closed prior d ≡ ok (r, d')
    → Closing uuids tenant_id at newest p ps closed prior d d' r
unfolding close_priors
close_priors-Closing uuids tenant_id at newest p ps closed prior d d' r h =
    elim (Result-cases (parse_id uuids p.id)) [
      | inr (x, e) ↦ ground arith
      | inl (pid, e) ↦ elim (Result-cases (close_prior tenant_id pid at d)) [
        | inr (x, f) ↦ ground arith
        | inl ((n, mid), f) ↦ elim (Bool-cases (n == 1)) [
          | inr g ↦ ground arith
          | inl g ↦ record {
            pid = pid;
            mid = mid;
            parsed = parse_id-eq-ok uuids p.id pid e;
            ran = f ∙ (let k = (==_iff n 1).0 g in rw k);
            others = ground arith;
          }
        ]
      ]
    ]
