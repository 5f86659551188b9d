-- ===== src/Core/Resolve/Laws.antt =====
-- What each decision means, and when it is taken.
use pg_mnestic.Prelude.{
  ◌≡◌, refl, ◌≢◌, ◌⊎◌, inl, inr, Bool, true, false, List, [], ◌∷◌, Option, none, some, arith,
  if◌then◌else◌, find, All, Bool-cases, Option-cases,
}
use pg_mnestic.Text.{Text, opt_text_eq}
use pg_mnestic.Text.Equality.{opt_text_eq_sound, opt_text_eq-ne}
use pg_mnestic.Core.Types.{Candidate, ExistingMatch, ResolveAction, dedup, supersede, insert}
use pg_mnestic.Core.Resolve.{duplicate_of, prior_ids, supersede_or_insert, decide}

-- `m` is the first match that carries `value`.
pub data FirstWith (value : Option Text) (m : ExistingMatch) : List ExistingMatch → Type 0 where
  here : {ms : List ExistingMatch} → m.value ≡ value → FirstWith value m (m ∷ ms)
  later :
      {x : ExistingMatch} {ms : List ExistingMatch}
      → x.value ≢ value
      → FirstWith value m ms
      → FirstWith value m (x ∷ ms)

-- No match carries `value`.
abbrev pub Differ : Option Text → List ExistingMatch → Type 0
Differ value = All (λ (m : ExistingMatch). m.value ≢ value)

find_first :
    (value : Option Text) (ms : List ExistingMatch) (m : ExistingMatch)
    → find (λ x. opt_text_eq x.value value) ms ≡ some m
    → FirstWith value m ms
find_first value [] m h = cc
find_first value (x ∷ ms) m h = elim (Bool-cases (opt_text_eq x.value value)) [
  | inl e ↦
      let same : x ≡ m = ground arith in rw (← same) (here (opt_text_eq_sound x.value value e))
  | inr e ↦ later (opt_text_eq-ne x.value value e) (find_first value ms m (ground arith))
]

find-none :
    (value : Option Text) (ms : List ExistingMatch)
    → find (λ x. opt_text_eq x.value value) ms ≡ none
    → Differ value ms
find-none value [] h = tt
find-none value (x ∷ ms) h = elim (Bool-cases (opt_text_eq x.value value)) [
  | inl e ↦ ground arith
  | inr e ↦ (opt_text_eq-ne x.value value e, find-none value ms (ground arith))
]

-- `ids` are the ids of the matches that carry another value, in order.
pub data PriorIds (value : Option Text) : List ExistingMatch → List Text → Type 0 where
  nil : PriorIds value [] []
  skip :
      {m : ExistingMatch} {ms : List ExistingMatch} {ids : List Text}
      → m.value ≡ value
      → PriorIds value ms ids
      → PriorIds value (m ∷ ms) ids
  keep :
      {m : ExistingMatch} {ms : List ExistingMatch} {ids : List Text}
      → m.value ≢ value
      → PriorIds value ms ids
      → PriorIds value (m ∷ ms) (m.id ∷ ids)

prior_ids-PriorIds :
    (value : Option Text) (ms : List ExistingMatch) → PriorIds value ms (prior_ids value ms)
unfolding prior_ids
prior_ids-PriorIds value [] = nil
prior_ids-PriorIds value (m ∷ ms) = elim (Bool-cases (opt_text_eq m.value value)) [
  | inl e ↦ rw e (skip (opt_text_eq_sound m.value value e) (prior_ids-PriorIds value ms))
  | inr e ↦ rw e (keep (opt_text_eq-ne m.value value e) (prior_ids-PriorIds value ms))
]

-- The rules of resolution, one constructor for each outcome.
pub data Resolves (c : Candidate) (ms : List ExistingMatch) : ResolveAction → Type 0 where
  duplicate :
      {v : Text} {m : ExistingMatch}
      → c.value ≡ some v
      → FirstWith (some v) m ms
      → Resolves c ms (dedup m.id)
  contradiction :
      {ids : List Text}
      → c.single_valued ≡ true
      → (c.value ≡ none) ⊎ Differ c.value ms
      → PriorIds c.value ms ids
      → ids ≢ []
      → Resolves c ms (supersede ids)
  addition :
      (c.value ≡ none) ⊎ Differ c.value ms
      → (c.single_valued ≡ false) ⊎ PriorIds c.value ms []
      → Resolves c ms insert

supersede_or_insert-Resolves :
    (c : Candidate) (ms : List ExistingMatch) (ids : List Text)
    → c.single_valued ≡ true
    → (c.value ≡ none) ⊎ Differ c.value ms
    → PriorIds c.value ms ids
    → Resolves c ms (supersede_or_insert ids)
unfolding supersede_or_insert
supersede_or_insert-Resolves c ms [] single new priors = addition new (inr priors)
supersede_or_insert-Resolves c ms (id ∷ ids) single new priors =
    contradiction single new priors (λ e. cc)

no_duplicate :
    (value : Option Text) (ms : List ExistingMatch)
    → duplicate_of value ms ≡ none
    → (value ≡ none) ⊎ Differ value ms
unfolding duplicate_of
no_duplicate none ms h = inl refl
no_duplicate (some v) ms h = inr (find-none (some v) ms h)

duplicate_first :
    (value : Option Text) (ms : List ExistingMatch) (m : ExistingMatch)
    → duplicate_of value ms ≡ some m
    → (v : Text) × (value ≡ some v) × FirstWith (some v) m ms
unfolding duplicate_of
duplicate_first none ms m h = cc
duplicate_first (some v) ms m h = (v, refl, find_first (some v) ms m h)

not_duplicate-Resolves :
    (c : Candidate) (ms : List ExistingMatch) (single : Bool)
    → c.single_valued ≡ single
    → (c.value ≡ none) ⊎ Differ c.value ms
    → Resolves c ms (if single then supersede_or_insert (prior_ids c.value ms) else insert)
not_duplicate-Resolves c ms true e new =
    supersede_or_insert-Resolves c ms _ e new (prior_ids-PriorIds c.value ms)
not_duplicate-Resolves c ms false e new = addition new (inl e)

-- `decide` follows the rules: the first match with the candidate's value is a duplicate, whatever the
-- cardinality; failing that, a single-valued candidate supersedes all matches with another value, if
-- there are any; all else is inserted.
pub decide-Resolves : (c : Candidate) (ms : List ExistingMatch) → Resolves c ms (decide c ms)
unfolding decide
decide-Resolves c ms = elim (Option-cases (duplicate_of c.value ms)) [
  | inr (m, e) ↦
      let (v, has, first) = duplicate_first c.value ms m e in rw (e, decide) (duplicate has first)
  | inl e ↦
      rw (e, decide) (not_duplicate-Resolves c ms c.single_valued refl (no_duplicate c.value ms e))
]
