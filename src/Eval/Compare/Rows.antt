-- ===== src/Eval/Compare/Rows.antt =====
-- The columns of the comparison never misalign.
use pg_mnestic.Prelude.{
  ℕ, suc, ◌≡◌, refl, true, ◌&&◌, not, List, [], ◌∷◌, map, some, find, is_empty, All, All-append,
  arith, Bool-cases, Option-cases, inl, inr,
}
use pg_mnestic.Text.{Text}
use pg_mnestic.Eval.Compare.{
  Qa, Case, BackendAnswer, ComparisonRow, Keyed, Backend, is_keyed, to_answer, collect, to_row,
  rows_of_case, assemble_rows, compare_backends, keyed_of,
}

module _ (F : Type 0) where
  -- The answers of the backends, one from each in their order, to the question of the key.
  unfoldable pub AreAligned : Text → ℕ → List (Text × List (Keyed F)) → List BackendAnswer → Type 0
  AreAligned case_id index [] [] = Unit
  AreAligned case_id index [] (a ∷ answers) = ⊥
  AreAligned case_id index ((name, keyed) ∷ backends) [] = ⊥
  AreAligned case_id index ((name, keyed) ∷ backends) (a ∷ answers) =
      ((k : Keyed F) × (find (is_keyed F case_id index) keyed ≡ some k)
        × (a ≡ to_answer F name k.result))
      × AreAligned case_id index backends answers

  collect-AreAligned :
      (case_id : Text) (index : ℕ) (question : Text) (backends : List (Text × List (Keyed F)))
      → (collect F case_id index question backends).complete ≡ true
      → AreAligned case_id index backends (collect F case_id index question backends).answers
  unfolding collect AreAligned
  collect-AreAligned case_id index question [] h = tt
  collect-AreAligned case_id index question ((name, keyed) ∷ backends) h =
      elim (Option-cases (find (is_keyed F case_id index) keyed)) [
        | inl e ↦ ground arith
        | inr (k, e) ↦
            let rest : (collect F case_id index question backends).complete ≡ true = ground arith in
            let ih = collect-AreAligned case_id index question backends rest in
            rw (e, collect) ((k, e, refl), ih)
      ]

  -- The row has an answer of each backend to one question of its case.
  unfoldable pub IsAligned : List (Text × List (Keyed F)) → ComparisonRow → Type 0
  IsAligned backends row = (index : ℕ) × AreAligned row.case_id index backends row.answers

  to_row-IsAligned :
      (case_id : Text) (index : ℕ) (qa : Qa) (backends : List (Text × List (Keyed F)))
      → All
          (IsAligned backends)
          (to_row F case_id qa (collect F case_id index qa.question backends))
  unfolding IsAligned
  to_row-IsAligned case_id index qa backends =
      let a = collect F case_id index qa.question backends in
      elim (Bool-cases (a.complete && not (is_empty a.answers))) [
        | inr e ↦ rw e tt
        | inl e ↦
            let whole : a.complete ≡ true = ground arith in
            rw e ((index, collect-AreAligned case_id index qa.question backends whole), tt)
      ]

  rows_of_case-IsAligned :
      (case_id : Text) (index : ℕ) (qas : List Qa) (backends : List (Text × List (Keyed F)))
      → All (IsAligned backends) (rows_of_case F case_id index qas backends).0
  unfolding rows_of_case
  rows_of_case-IsAligned case_id index [] backends = tt
  rows_of_case-IsAligned case_id index (qa ∷ qas) backends =
      All-append (IsAligned backends)
        (to_row F case_id qa (collect F case_id index qa.question backends)) _
        (to_row-IsAligned case_id index qa backends)
        (rows_of_case-IsAligned case_id (suc index) qas backends)

  assemble_rows-IsAligned :
      (cases : List Case) (backends : List (Text × List (Keyed F)))
      → All (IsAligned backends) (assemble_rows F cases backends).0
  unfolding assemble_rows
  assemble_rows-IsAligned [] backends = tt
  assemble_rows-IsAligned (c ∷ cases) backends =
      All-append (IsAligned backends) (rows_of_case F c.id 0 c.questions backends).0 _
        (rows_of_case-IsAligned c.id 0 c.questions backends)
        (assemble_rows-IsAligned cases backends)

-- Every row of a comparison has exactly one answer of each backend, in the order of the backends, and it
-- is the answer that the backend's run has under the row's case and one index of a question.
pub compare_backends-IsAligned :
    (F : Type 0) (sum : List F → F) (backends : List (Backend F)) (cases : List Case)
    → All
        (IsAligned F (map (λ b. keyed_of F b cases) backends))
        (compare_backends F sum backends cases).rows
unfolding compare_backends
compare_backends-IsAligned F sum backends cases =
    assemble_rows-IsAligned F cases (map (λ b. keyed_of F b cases) backends)
