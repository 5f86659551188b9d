-- ===== src/Store/Memories/Frame.antt =====
-- The UPDATE of `close_prior_tx`, taken apart row by row.
use pg_mnestic.Prelude.{ℕ, suc, ◌≡◌, ◌⊎◌, inl, inr, true, false, List, [], ◌∷◌, arith, Bool-cases}
use pg_mnestic.Core.Types.{Time}
use pg_mnestic.Store.Db.{MemoryRow, ok, Result-cases}
use pg_mnestic.Store.Memories.{closes, closed_row, close_rows}

pub record CloseHit (tenant_id prior_id : ℕ) (at now : Time) (r : MemoryRow)
    (rs rs' : List MemoryRow) (n : ℕ) : Type 0 where
  pub rest : List MemoryRow
  pub others : ℕ
  pub below : close_rows tenant_id prior_id at now rs ≡ ok (rest, others)
  pub case :
      ((r' : MemoryRow) × (closes tenant_id prior_id at r ≡ true)
        × (closed_row at now r ≡ ok r')
        × (rs' ≡ r' ∷ rest)
        × (n ≡ suc others))
      ⊎ ((closes tenant_id prior_id at r ≡ false) × (rs' ≡ r ∷ rest) × (n ≡ others))

pub close_rows-nil :
    (tenant_id prior_id : ℕ) (at now : Time) (rs' : List MemoryRow) (n : ℕ)
    → close_rows tenant_id prior_id at now [] ≡ ok (rs', n)
    → (rs' ≡ []) × (n ≡ 0)
unfolding close_rows
close_rows-nil tenant_id prior_id at now rs' n h = (ground arith, ground arith)

pub close_rows-cons :
    (tenant_id prior_id : ℕ) (at now : Time) (r : MemoryRow) (rs rs' : List MemoryRow) (n : ℕ)
    → close_rows tenant_id prior_id at now (r ∷ rs) ≡ ok (rs', n)
    → CloseHit tenant_id prior_id at now r rs rs' n
unfolding close_rows
close_rows-cons tenant_id prior_id at now r rs rs' n h =
    elim (Result-cases (close_rows tenant_id prior_id at now rs)) [
      | inr (e, b) ↦ ground arith
      | inl ((rest, m), b) ↦ elim (Bool-cases (closes tenant_id prior_id at r)) [
        | inr c ↦ record {
          rest = rest;
          others = m;
          below = b;
          case = inr (c, ground arith, ground arith);
        }
        | inl c ↦ elim (Result-cases (closed_row at now r)) [
          | inr (e, g) ↦ ground arith
          | inl (r', g) ↦ record {
            rest = rest;
            others = m;
            below = b;
            case = inl (r', c, g, ground arith, ground arith);
          }
        ]
      ]
    ]
