-- ===== src/Engine/Write/Current.antt =====
-- After a single-valued fact with a later start is written, it is the only current value of its key.
use pg_mnestic.Prelude.{
  ℕ, ◌≤◌, ◌≡◌, ◌≢◌, refl, sym, ◌∙◌, ap, ◌⊎◌, inl, inr, Bool, true, false, ◌&&◌, not, List, [], ◌∷◌,
  map, Option, some, arith, any, All, All-imp, In, Bool-cases, subst,
}
use pg_mnestic.Text.{Text, text_eq, opt_text_eq}
use pg_mnestic.Text.Equality.{text_eq_self}
use pg_mnestic.Core.Types.{Time, ExistingMatch}
use pg_mnestic.Core.Resolve.{prior_ids}
use pg_mnestic.Store.Db.{MemoryRow, ok}
use pg_mnestic.Store.Memories.{
  Uuids, has_key, is_current, latest_matches, closes, closed_row, close_rows,
}
use pg_mnestic.Store.Memories.Frame.{close_rows-nil, close_rows-cons}
use pg_mnestic.Store.Memories.Invariant.{IdsBelow}
use pg_mnestic.Engine.Write.{chosen_priors}

-- `closes` hits rows of the given id only.
closes-id :
    (tenant_id pid : ℕ) (at : Time) (r : MemoryRow) → closes tenant_id pid at r ≡ true → r.id ≡ pid
unfolding closes
closes-id tenant_id pid at r h = ground arith

close_absent :
    (tenant_id pid : ℕ) (at now : Time) (rs rs' : List MemoryRow) (n m : ℕ)
    → m ≤ pid
    → IdsBelow m rs
    → close_rows tenant_id pid at now rs ≡ ok (rs', n)
    → (n ≡ 0) × (rs' ≡ rs)
close_absent tenant_id pid at now [] rs' n m le below h =
    let e = close_rows-nil tenant_id pid at now rs' n h in (e.1, e.0)
close_absent tenant_id pid at now (r ∷ rs) rs' n m le below h =
    let hit = close_rows-cons tenant_id pid at now r rs rs' n h in
    let ih =
      close_absent tenant_id pid at now rs hit.rest hit.others r.id (omega arith) below.1
        hit.below in
    elim (hit.case) [
      | inl (r', c, g, e, k) ↦ absurd (omega (arith, closes-id tenant_id pid at r c))
      | inr (c, e, k) ↦ (k ∙ ih.0, rw e (rw ih.1))
    ]

closed_row-is_latest :
    (at now : Time) (r r' : MemoryRow) → closed_row at now r ≡ ok r' → r'.is_latest ≡ false
unfolding closed_row
closed_row-is_latest at now r r' h = ground arith

module _ (uuids : Uuids) (tenant_id : ℕ) (actor_id subject attribute : Text)
    (value : Option Text) where
  -- A current row of the key with another value.
  abbrev pub lags : MemoryRow → Bool
  lags r =
      has_key tenant_id actor_id subject attribute r
      && is_current r
      && not (opt_text_eq r.value value)

  -- Each such row's id is among `names`.
  abbrev pub LagsIn : List Text → MemoryRow → Type 0
  LagsIn names r = (lags r ≡ false) ⊎ In (uuids.to_string r.id) names

  LagsIn-cons :
      (name : Text) (names : List Text) (r : MemoryRow) → LagsIn names r → LagsIn (name ∷ names) r
  LagsIn-cons name names r (inl e) = inl e
  LagsIn-cons name names r (inr i) = inr (inr i)

  abbrev pub current : List MemoryRow → List ExistingMatch
  current rows = latest_matches uuids tenant_id actor_id subject attribute rows

  prior_ids-lags :
      (r : MemoryRow) (rs : List MemoryRow)
      → lags r ≡ true
      → prior_ids value (current (r ∷ rs)) ≡ uuids.to_string r.id ∷ prior_ids value (current rs)
  unfolding prior_ids latest_matches
  prior_ids-lags r rs h = ground arith

  prior_ids-other :
      (r : MemoryRow) (rs : List MemoryRow)
      → lags r ≡ false
      → prior_ids value (current (r ∷ rs)) ≡ prior_ids value (current rs)
  unfolding prior_ids latest_matches
  prior_ids-other r rs h = ground arith

  pub lagging_are_priors : (rs : List MemoryRow) → All (LagsIn (prior_ids value (current rs))) rs
  lagging_are_priors [] = tt
  lagging_are_priors (r ∷ rs) = elim (Bool-cases (lags r)) [
    | inl e ↦
        subst (λ ns. All (LagsIn ns) (r ∷ rs)) (sym (prior_ids-lags r rs e))
          (
            inr (inl refl),
            All-imp (LagsIn-cons (uuids.to_string r.id) _) rs (lagging_are_priors rs),
          )
    | inr e ↦
        subst (λ ns. All (LagsIn ns) (r ∷ rs)) (sym (prior_ids-other r rs e))
          (inl e, lagging_are_priors rs)
  ]

  any-In : (t : Text) (names : List Text) → In t names → any (text_eq t) names ≡ true
  any-In t [] h = absurd h
  any-In t (x ∷ xs) (inl e) = rw (← e, text_eq_self t)
  any-In t (x ∷ xs) (inr h) = rw (any-In t xs h) (ground arith)

  abbrev pub names_of : List ExistingMatch → List Text
  names_of = map (λ m. m.id)

  -- The ids of the priors that `apply_supersede` takes for the ids `names`.
  abbrev pub chosen : List Text → List MemoryRow → List Text
  chosen names rs = names_of (chosen_priors names (current rs))

  abbrev is_chosen : List Text → MemoryRow → Bool
  is_chosen names r =
      has_key tenant_id actor_id subject attribute r
      && is_current r
      && any (text_eq (uuids.to_string r.id)) names

  chosen-in :
      (names : List Text) (r : MemoryRow) (rs : List MemoryRow)
      → is_chosen names r ≡ true
      → chosen names (r ∷ rs) ≡ uuids.to_string r.id ∷ chosen names rs
  unfolding latest_matches
  chosen-in names r rs h = ground arith

  chosen-out :
      (names : List Text) (r : MemoryRow) (rs : List MemoryRow)
      → is_chosen names r ≡ false
      → chosen names (r ∷ rs) ≡ chosen names rs
  unfolding latest_matches
  chosen-out names r rs h = ground arith

  not_chosen-lags :
      (names : List Text) (r : MemoryRow)
      → is_chosen names r ≡ false
      → LagsIn names r
      → lags r ≡ false
  not_chosen-lags names r c (inl e) = e
  not_chosen-lags names r c (inr i) = ground (arith, any-In (uuids.to_string r.id) names i)

  pub lagging_are_chosen :
      (names : List Text) (rs : List MemoryRow)
      → All (LagsIn names) rs
      → All (LagsIn (chosen names rs)) rs
  lagging_are_chosen names [] h = tt
  lagging_are_chosen names (r ∷ rs) h = elim (Bool-cases (is_chosen names r)) [
    | inl c ↦
        subst (λ ns. All (LagsIn ns) (r ∷ rs)) (sym (chosen-in names r rs c))
          (
            inr (inl refl),
            All-imp (LagsIn-cons (uuids.to_string r.id) _) rs (lagging_are_chosen names rs h.1),
          )
    | inr c ↦
        subst (λ ns. All (LagsIn ns) (r ∷ rs)) (sym (chosen-out names r rs c))
          (inl (not_chosen-lags names r c h.0), lagging_are_chosen names rs h.1)
  ]

  -- Closing the row of the id `pid` takes its name off the list.
  same_name :
      (name : Text) (pid id : ℕ)
      → uuids.parse_str name ≡ some pid
      → uuids.to_string id ≡ name
      → id ≡ pid
  same_name name pid id parsed e =
      let p = uuids.parse_str-to_string id in let q = ap uuids.parse_str e in cc

  drop_name :
      (name : Text) (names : List Text) (pid : ℕ) (r : MemoryRow)
      → uuids.parse_str name ≡ some pid
      → r.id ≢ pid
      → LagsIn (name ∷ names) r
      → LagsIn names r
  drop_name name names pid r parsed ne (inl e) = inl e
  drop_name name names pid r parsed ne (inr (inl e)) =
      absurd (ne (same_name name pid r.id parsed e))
  drop_name name names pid r parsed ne (inr (inr i)) = inr i

  drop_name_below :
      (name : Text) (names : List Text) (pid m : ℕ) (rs : List MemoryRow)
      → uuids.parse_str name ≡ some pid
      → m ≤ pid
      → IdsBelow m rs
      → All (LagsIn (name ∷ names)) rs
      → All (LagsIn names) rs
  drop_name_below name names pid m [] parsed le below h = tt
  drop_name_below name names pid m (r ∷ rs) parsed le below h = (
    drop_name name names pid r parsed (λ e. omega arith) h.0,
    drop_name_below name names pid r.id rs parsed (omega arith) below.1 h.1,
  )

  lags-closed : (r : MemoryRow) → r.is_latest ≡ false → lags r ≡ false
  lags-closed r h = ground arith

  pub close_rows-LagsIn :
      (name : Text) (names : List Text) (pid m : ℕ) (at now : Time) (rs rs' : List MemoryRow)
      → uuids.parse_str name ≡ some pid
      → IdsBelow m rs
      → close_rows tenant_id pid at now rs ≡ ok (rs', 1)
      → All (LagsIn (name ∷ names)) rs
      → All (LagsIn names) rs'
  close_rows-LagsIn name names pid m at now [] rs' parsed below h l =
      absurd (omega (arith, (close_rows-nil tenant_id pid at now rs' 1 h).1))
  close_rows-LagsIn name names pid m at now (r ∷ rs) rs' parsed below h l =
      let hit = close_rows-cons tenant_id pid at now r rs rs' 1 h in
      elim (hit.case) [
        | inl (r', c, g, e, k) ↦
            let same = closes-id tenant_id pid at r c in
            let kept =
              (close_absent tenant_id pid at now rs hit.rest hit.others r.id (omega arith) below.1
                hit.below).1 in
            subst (λ t. All (LagsIn names) t) (sym e)
              (
                inl (lags-closed r' (closed_row-is_latest at now r r' g)),
                rw kept (drop_name_below name names pid r.id rs parsed (omega arith) below.1 l.1),
              )
        | inr (c, e, k) ↦
            let one : close_rows tenant_id pid at now rs ≡ ok (hit.rest, 1) = rw k hit.below in
            subst (λ t. All (LagsIn names) t) (sym e)
              (
                drop_name name names pid r parsed
                    (λ same. absurd (
                      omega (
                        arith,
                        (close_absent tenant_id pid at now rs hit.rest 1 r.id (omega arith) below.1
                            one).0,
                      )))
                    l.0,
                close_rows-LagsIn name names pid r.id at now rs hit.rest parsed below.1 one l.1,
              )
      ]
