-- ===== src/Eval/Score/Buckets.antt =====
-- The breakdown by type is a partition of the results.
use Prim.Native.Nat.Ordering.{lt, eq, gt}
use pg_mnestic.Prelude.{
  ℕ, suc, ◌+◌, ◌≡◌, refl, ap, ◌⊎◌, inl, inr, Bool, true, false, ◌&&◌, ◌||◌, not, List, [], ◌∷◌, map,
  none, some, Ordering, compare, if◌then◌else◌, filter, length, arith, Bool-cases, Option-cases,
}
use pg_mnestic.Text.{Text, codes, text_eq}
use pg_mnestic.Eval.Score.{
  QuestionResult, compare_text, tally, Group, bucket, tally_all, to_type_score, from_results,
}

-- The sums of the two counts over the groups.
unfoldable pub sum_n : List Group → ℕ
sum_n [] = 0
sum_n (g ∷ gs) = g.n + sum_n gs

unfoldable pub sum_correct : List Group → ℕ
sum_correct [] = 0
sum_correct (g ∷ gs) = g.correct + sum_correct gs

Ordering-cases : (o : Ordering) → (o ≡ lt) ⊎ (o ≡ eq) ⊎ (o ≡ gt)
Ordering-cases lt = inl refl
Ordering-cases eq = inr (inl refl)
Ordering-cases gt = inr (inr refl)

compare_text-gt : (s t : Text) → compare_text s t ≡ gt → compare_text t s ≡ lt
unfolding compare_text
compare_text-gt [] [] h = ground arith
compare_text-gt [] (d ∷ t) h = ground arith
compare_text-gt (c ∷ s) [] h = refl
compare_text-gt (c ∷ s) (d ∷ t) h = elim (Ordering-cases (compare c d)) [
  | inl e ↦ ground arith
  | inr (inl e) ↦
      let same : compare d c ≡ eq = ground arith in
      let inner : compare_text s t ≡ gt = ground arith in
      let ih = compare_text-gt s t inner in ground arith
  | inr (inr e) ↦ let back : compare d c ≡ lt = ground arith in ground arith
]

compare_text-eq : (s t : Text) → compare_text s t ≡ eq → s ≡ t
unfolding compare_text
compare_text-eq [] [] h = refl
compare_text-eq [] (d ∷ t) h = ground arith
compare_text-eq (c ∷ s) [] h = ground arith
compare_text-eq (c ∷ s) (d ∷ t) h = elim (Ordering-cases (compare c d)) [
  | inl e ↦ ground arith
  | inr (inl e) ↦
      let inner : compare_text s t ≡ eq = ground arith in
      let ih = compare_text-eq s t inner in let head : c ≡ d = ground arith in rw (head, ih) refl
  | inr (inr e) ↦ ground arith
]

-- 1 where the result counts.
abbrev one_if : Bool → ℕ
one_if true = 1
one_if false = 0

tally-sums :
    (key : Text) (correct : Bool) (gs : List Group)
    → (sum_n (tally key correct gs) ≡ suc (sum_n gs))
      × (sum_correct (tally key correct gs) ≡ one_if correct + sum_correct gs)
unfolding tally sum_n sum_correct
tally-sums key true [] = (refl, refl)
tally-sums key false [] = (refl, refl)
tally-sums key correct (g ∷ gs) =
    let ih = tally-sums key correct gs in
    elim (Ordering-cases (compare_text key g.key)) [
      | inl e ↦ (elim (Bool-cases correct) [ inl b ↦ ground arith | inr b ↦ ground arith ])
      | inr (inl e) ↦ (elim (Bool-cases correct) [ inl b ↦ ground arith | inr b ↦ ground arith ])
      | inr (inr e) ↦ rw (e, tally) (omega (arith, ih.0), omega (arith, ih.1))
    ]

-- The keys rise from `low` on: no key is there twice.
abbrev Above : Text → List Group → Type 0
Above low [] = Unit
Above low (g ∷ gs) = (compare_text low g.key ≡ lt) × Above g.key gs

unfoldable pub IsSorted : List Group → Type 0
IsSorted [] = Unit
IsSorted (g ∷ gs) = Above g.key gs

tally-Above :
    (low key : Text) (correct : Bool) (gs : List Group)
    → compare_text low key ≡ lt
    → Above low gs
    → Above low (tally key correct gs)
unfolding tally
tally-Above low key true [] k h = (k, tt)
tally-Above low key false [] k h = (k, tt)
tally-Above low key correct (g ∷ gs) k h = elim (Ordering-cases (compare_text key g.key)) [
  | inl e ↦
      rw (e, tally)
        (elim (Bool-cases correct) [ inl b ↦ rw b (k, (e, h.1)) | inr b ↦ rw b (k, (e, h.1)) ])
  | inr (inl e) ↦ rw (e, tally) (elim (Bool-cases correct) [ inl b ↦ rw b h | inr b ↦ rw b h ])
  | inr (inr e) ↦
      rw (e, tally) (h.0, tally-Above g.key key correct gs (compare_text-gt key g.key e) h.1)
]

tally-IsSorted :
    (key : Text) (correct : Bool) (gs : List Group) → IsSorted gs → IsSorted (tally key correct gs)
unfolding tally IsSorted
tally-IsSorted key true [] h = tt
tally-IsSorted key false [] h = tt
tally-IsSorted key correct (g ∷ gs) h = elim (Ordering-cases (compare_text key g.key)) [
  | inl e ↦ rw (e, tally) (elim (Bool-cases correct) [ inl b ↦ rw b (e, h) | inr b ↦ rw b (e, h) ])
  | inr (inl e) ↦ rw (e, tally) (elim (Bool-cases correct) [ inl b ↦ rw b h | inr b ↦ rw b h ])
  | inr (inr e) ↦ rw (e, tally) (tally-Above g.key key correct gs (compare_text-gt key g.key e) h)
]

-- What the groups of a name count.
unfoldable pub n_at : Text → List Group → ℕ
n_at name [] = 0
n_at name (g ∷ gs) = if text_eq name g.key then g.n + n_at name gs else n_at name gs

unfoldable pub correct_at : Text → List Group → ℕ
correct_at name [] = 0
correct_at name (g ∷ gs) =
    if text_eq name g.key then g.correct + correct_at name gs else correct_at name gs

tally-at :
    (name key : Text) (correct : Bool) (gs : List Group)
    → (n_at name (tally key correct gs) ≡ one_if (text_eq name key) + n_at name gs)
      × (correct_at name (tally key correct gs)
          ≡ one_if (text_eq name key && correct) + correct_at name gs)
unfolding tally n_at correct_at
tally-at name key true [] = (ground arith, ground arith)
tally-at name key false [] = (ground arith, ground arith)
tally-at name key true (g ∷ gs) =
    let ih = tally-at name key true gs in
    elim (Ordering-cases (compare_text key g.key)) [
      | inl e ↦ ground arith
      | inr (inl e) ↦
          let same : text_eq name key ≡ text_eq name g.key =
            ap (text_eq name) (compare_text-eq key g.key e) in
          ground arith
      | inr (inr e) ↦ ground arith
    ]
tally-at name key false (g ∷ gs) =
    let ih = tally-at name key false gs in
    elim (Ordering-cases (compare_text key g.key)) [
      | inl e ↦ ground arith
      | inr (inl e) ↦
          let same : text_eq name key ≡ text_eq name g.key =
            ap (text_eq name) (compare_text-eq key g.key e) in
          ground arith
      | inr (inr e) ↦ ground arith
    ]

module _ (F : Type 0) where
  -- The results counted, and those of them that are correct.
  abbrev pub corrects : List (QuestionResult F) → ℕ
  corrects rs = length (filter (λ (r : QuestionResult F). r.correct) rs)

  -- Whether a result is of the type of that name: an abstention question is of `abstention` alone,
  -- and another is of its category, or of `untyped` where it has none.
  abbrev pub is_of_type : Text → QuestionResult F → Bool
  is_of_type name r =
      (r.abstention && text_eq name (codes "abstention"))
      || (not r.abstention
          && (elim r.category [ none ↦ text_eq name (codes "untyped") | some c ↦ text_eq name c ]))

  bucket-type : (name : Text) (r : QuestionResult F) → text_eq name (bucket F r) ≡ is_of_type name r
  bucket-type name r = elim (Bool-cases r.abstention) [
    | inl a ↦ ground arith
    | inr a ↦ (elim (Option-cases r.category) [ inl e ↦ ground arith | inr (c, e) ↦ ground arith ])
  ]

  tally_all-at :
      (name : Text) (rs : List (QuestionResult F)) (gs : List Group)
      → (n_at name (tally_all F rs gs) ≡ length (filter (is_of_type name) rs) + n_at name gs)
        × (correct_at name (tally_all F rs gs)
            ≡ length (filter (λ r. is_of_type name r && r.correct) rs) + correct_at name gs)
  unfolding tally_all
  tally_all-at name [] gs = (omega arith, omega arith)
  tally_all-at name (r ∷ rs) gs =
      let here = tally-at name (bucket F r) r.correct gs in
      let ih = tally_all-at name rs (tally (bucket F r) r.correct gs) in
      let same = bucket-type name r in
      (
        (elim (Bool-cases (is_of_type name r)) [
          | inl t ↦ rw t (ground (arith, ih.0, here.0, same))
          | inr t ↦ rw t (ground (arith, ih.0, here.0, same))
        ]),
        (elim (Bool-cases (is_of_type name r && r.correct)) [
          | inl t ↦ rw t (ground (arith, ih.1, here.1, same))
          | inr t ↦ rw t (ground (arith, ih.1, here.1, same))
        ]),
      )

  tally_all-sums :
      (rs : List (QuestionResult F)) (gs : List Group)
      → IsSorted gs
      → (sum_n (tally_all F rs gs) ≡ length rs + sum_n gs)
        × (sum_correct (tally_all F rs gs) ≡ corrects rs + sum_correct gs)
        × IsSorted (tally_all F rs gs)
  unfolding tally_all
  tally_all-sums [] gs h = (omega arith, omega arith, h)
  tally_all-sums (r ∷ rs) gs h =
      let (n, c) = tally-sums (bucket F r) r.correct gs in
      let ih =
        tally_all-sums rs (tally (bucket F r) r.correct gs)
          (tally-IsSorted (bucket F r) r.correct gs h) in
      (
        omega (arith, n, ih.0),
        (elim (Bool-cases r.correct) [
          | inl b ↦ ground (arith, ih.1, c)
          | inr b ↦ ground (arith, ih.1, c)
        ]),
        ih.2,
      )

-- The buckets of a run's score are its results by type: their names rise strictly, so that each type
-- has one bucket; the bucket of a name counts the results of that type, and those of them that are
-- correct, an abstention question as `abstention` and one without a category as `untyped`; and the
-- counts add up to the number of results and to the correct ones of the run.
pub from_results-buckets :
    (F : Type 0) (sum : List F → F) (results : List (QuestionResult F))
    → (groups : List Group) × ((from_results F sum results).per_type ≡ map (to_type_score F) groups)
      × IsSorted groups
      × ((name : Text)
          → (n_at name groups ≡ length (filter (is_of_type F name) results))
            × (correct_at name groups
                ≡ length (filter (λ r. is_of_type F name r && r.correct) results)))
      × (sum_n groups ≡ (from_results F sum results).n)
      × (sum_correct groups ≡ (from_results F sum results).correct)
unfolding from_results sum_n sum_correct IsSorted n_at correct_at
from_results-buckets F sum results =
    let (n, c, s) = tally_all-sums F results [] tt in
    (
      tally_all F results [],
      refl,
      s,
      λ name. (
        omega (arith, (tally_all-at F name results []).0),
        omega (arith, (tally_all-at F name results []).1),
      ),
      omega (arith, n),
      omega (arith, c),
    )
