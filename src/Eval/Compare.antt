-- ===== src/Eval/Compare.antt =====
-- crates/mnestic-eval/src/compare.rs. Recall, answerer and judge are one argument, what they make of a
-- question.
pub mod Rows
use pg_mnestic.Prelude.{
  ℕ, zero, suc, ◌-◌, Bool, true, false, ◌&&◌, not, List, [], ◌∷◌, ◌++◌, map, Option, none, some,
  ◌==◌, if◌then◌else◌, filter, find, any, take, is_empty, length, xor,
}
use pg_mnestic.Text.{Text, codes, text_eq}
use pg_mnestic.Eval.Score.{QuestionResult, MemScore, from_results}

-- `Qa` and `Case`, as far as the comparison reads them.
pub record Qa : Type 0 where
  pub question : Text
  pub answer : Text
  pub question_type : Option Text
  pub abstention : Bool

pub record Case : Type 0 where
  pub id : Text
  pub questions : List Qa

pub record BackendAnswer : Type 0 where
  pub backend : Text
  pub correct : Bool
  pub recalled : List Text
  pub predicted : Text

pub record ComparisonRow : Type 0 where
  pub case_id : Text
  pub question : Text
  pub gold : Text
  pub category : Option Text
  pub abstention : Bool
  pub answers : List BackendAnswer

-- The messages of `errors`, before they are formatted.
pub data Failure : Type 0 where
  ingest_failed : Text → Text → Failure
  question_failed : Text → Text → Text → Text → Failure
  missing_result : Text → Text → Text → Failure

-- A result under its key (case_id, question index).
pub record Keyed (F : Type 0) : Type 0 where
  pub case_id : Text
  pub index : ℕ
  pub result : QuestionResult F

-- A backend: its name, what its ingest failed on, and what a question comes to.
pub record Backend (F : Type 0) : Type 0 where
  pub name : Text
  pub ingest_errors : List Text
  pub failed : List Text
  pub score_one : Text → Qa → Option (QuestionResult F)
  pub message : Text → Qa → Text

-- `a.correct != first.correct`.
abbrev pub differs : Bool → Bool → Bool
differs true b = not b
differs false b = b

unfoldable pub is_split : List BackendAnswer → Bool
is_split [] = false
is_split (first ∷ answers) = any (λ (a : BackendAnswer). differs a.correct first.correct) answers

-- `disagreements`.
unfoldable pub disagreements : List ComparisonRow → List ComparisonRow
unfolding is_split
disagreements rows = filter (λ (r : ComparisonRow). is_split r.answers) rows

-- `lines().next()`: up to the first line feed, less a carriage return before it.
unfoldable pub first_line : Text → Text
first_line [] = []
first_line (c ∷ s) =
    let rest = first_line s in
    if c == b'\n'
    then []
    else (elim s [ [] ↦ c ∷ [] | d ∷ t ↦ if c == b'\r' && d == b'\n' then [] else c ∷ rest ])

-- `preview`; `print` is the printing of numbers.
unfoldable pub preview : (ℕ → Text) → List Text → Text
unfolding first_line
preview print [] = codes "(none)"
preview print (t ∷ []) = take 80 (first_line t)
preview print (t ∷ u ∷ ts) =
    take 80 (first_line t) ++ codes " (+" ++ print (suc (length ts)) ++ codes " more)"

module _ (F : Type 0) where
  abbrev pub is_keyed : Text → ℕ → Keyed F → Bool
  is_keyed case_id index k = text_eq k.case_id case_id && k.index == index

  abbrev pub to_answer : Text → QuestionResult F → BackendAnswer
  to_answer name r = record {
    backend = name;
    correct = r.correct;
    recalled = r.recalled;
    predicted = r.predicted;
  }

  -- What one question gives over the backends: the answers, the gaps, and `complete`.
  pub record Answers : Type 0 where
    pub answers : List BackendAnswer
    pub gaps : List Failure
    pub complete : Bool

  abbrev pub with_result : Text → Text → Text → Option (Keyed F) → Answers → Answers
  with_result name case_id question (some k) rest = record rest {
    answers = to_answer name k.result ∷ rest.answers;
  }
  with_result name case_id question none rest = record rest {
    gaps = missing_result name case_id question ∷ rest.gaps;
    complete = false;
  }

  -- `for (b, backend) in backends.iter().enumerate()`.
  unfoldable pub collect : Text → ℕ → Text → List (Text × List (Keyed F)) → Answers
  collect case_id index question [] = record { answers = []; gaps = []; complete = true }
  collect case_id index question ((name, keyed) ∷ backends) =
      with_result name case_id question (find (is_keyed case_id index) keyed)
        (collect case_id index question backends)

  abbrev pub to_row : Text → Qa → Answers → List ComparisonRow
  to_row case_id qa a =
      if a.complete && not (is_empty a.answers)
      then record {
        case_id = case_id;
        question = qa.question;
        gold = qa.answer;
        category = qa.question_type;
        abstention = qa.abstention;
        answers = a.answers;
      }
        ∷ []
      else []

  unfoldable pub rows_of_case :
      Text → ℕ → List Qa → List (Text × List (Keyed F)) → List ComparisonRow × List Failure
  unfolding collect
  rows_of_case case_id index [] backends = ([], [])
  rows_of_case case_id index (qa ∷ qas) backends =
      let a = collect case_id index qa.question backends in
      let (rows, failures) = rows_of_case case_id (suc index) qas backends in
      (to_row case_id qa a ++ rows, a.gaps ++ failures)

  -- `assemble_rows`.
  unfoldable pub assemble_rows :
      List Case → List (Text × List (Keyed F)) → List ComparisonRow × List Failure
  unfolding rows_of_case
  assemble_rows [] backends = ([], [])
  assemble_rows (c ∷ cs) backends =
      let (rows, failures) = rows_of_case c.id 0 c.questions backends in
      let (more, later) = assemble_rows cs backends in (rows ++ more, failures ++ later)

  -- The questions of one case, for one backend: what is keyed, and what failed.
  unfoldable pub run_case : Backend F → Text → ℕ → List Qa → List (Keyed F) × List Failure
  run_case b case_id index [] = ([], [])
  run_case b case_id index (qa ∷ qas) =
      let (keyed, failures) = run_case b case_id (suc index) qas in
      elim (b.score_one case_id qa) [
        | some r ↦ (record { case_id = case_id; index = index; result = r } ∷ keyed, failures)
        | none ↦
            (keyed, question_failed b.name case_id qa.question (b.message case_id qa) ∷ failures)
      ]

  -- `for case in cases`: a case whose ingest failed is passed over.
  unfoldable pub run_backend : Backend F → List Case → List (Keyed F) × List Failure
  unfolding run_case
  run_backend b [] = ([], [])
  run_backend b (c ∷ cs) =
      let (keyed, failures) = run_case b c.id 0 c.questions in
      let (more, later) = run_backend b cs in
      if any (text_eq c.id) b.failed then (more, later) else (keyed ++ more, failures ++ later)

  -- `RunReport`.
  pub record RunReport : Type 0 where
    pub results : List (QuestionResult F)
    pub errors : List Failure
    pub score : MemScore F

  pub record ComparisonReport : Type 0 where
    pub per_backend : List (Text × RunReport)
    pub rows : List ComparisonRow
    pub errors : List Failure

  abbrev pub results_of : List (Keyed F) → List (QuestionResult F)
  results_of = map (λ (k : Keyed F). k.result)

  unfoldable pub report_of : (List F → F) → Backend F → List Case → Text × RunReport
  unfolding run_backend from_results
  report_of sum b cases =
      let (keyed, failures) = run_backend b cases in
      (
        b.name,
        record {
          results = results_of keyed;
          errors = failures;
          score = from_results F sum (results_of keyed);
        },
      )

  abbrev pub keyed_of : Backend F → List Case → Text × List (Keyed F)
  keyed_of b cases = (b.name, (run_backend b cases).0)

  -- The failures of each backend in turn: those of its ingest, then those of its questions.
  unfoldable pub failures_of : List (Backend F) → List Case → List Failure
  failures_of [] cases = []
  failures_of (b ∷ bs) cases =
      map (ingest_failed b.name) b.ingest_errors ++ (run_backend b cases).1 ++ failures_of bs cases

  -- `compare`.
  unfoldable pub compare_backends : (List F → F) → List (Backend F) → List Case → ComparisonReport
  unfolding report_of assemble_rows failures_of
  compare_backends sum backends cases =
      let (rows, gaps) = assemble_rows cases (map (λ b. keyed_of b cases) backends) in
      record {
        per_backend = map (λ b. report_of sum b cases) backends;
        rows = rows;
        errors = failures_of backends cases ++ gaps;
      }
