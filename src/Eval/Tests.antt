-- ===== src/Eval/Tests.antt =====
-- A small benchmark.
use pg_mnestic.Prelude.{
  ℕ, ◌+◌, ◌≡◌, ◌&&◌, length, filter, Bool, true, false, List, [], ◌∷◌, map, none, some, All,
}
use pg_mnestic.Text.{Text, codes}
use pg_mnestic.Eval.Score.{QuestionResult, Group, from_results, to_type_score}
use pg_mnestic.Eval.Score.Buckets.{
  IsSorted, n_at, correct_at, is_of_type, sum_n, sum_correct, from_results-buckets,
}
use pg_mnestic.Eval.Compare.{Qa, Case, Backend, keyed_of, compare_backends}
use pg_mnestic.Eval.Compare.Rows.{IsAligned, compare_backends-IsAligned}

abbrev result : Bool → Text → QuestionResult ℕ
result b category = record {
  correct = b;
  query_latency_ms = 1;
  recalled_context_tokens = 1;
  category = some category;
  abstention = false;
  question = [];
  gold = [];
  predicted = [];
  recalled = [];
}

abbrev total : List ℕ → ℕ
total [] = 0
total (n ∷ ns) = n + total ns

abbrev run : List (QuestionResult ℕ)
run =
    result true (codes "temporal")
    ∷ result false (codes "temporal")
    ∷ result true (codes "update")
    ∷ []

from_results-buckets_example :
    (groups : List Group) × ((from_results ℕ total run).per_type ≡ map (to_type_score ℕ) groups)
    × IsSorted groups
    × ((name : Text)
        → (n_at name groups ≡ length (filter (is_of_type ℕ name) run))
          × (correct_at name groups ≡ length (filter (λ r. is_of_type ℕ name r && r.correct) run)))
    × (sum_n groups ≡ (from_results ℕ total run).n)
    × (sum_correct groups ≡ (from_results ℕ total run).correct)
from_results-buckets_example = from_results-buckets ℕ total run

abbrev asked : Qa
asked = record {
  question = codes "where?";
  answer = codes "NYC";
  question_type = none;
  abstention = false;
}

abbrev cases : List Case
cases = record { id = codes "c1"; questions = asked ∷ [] } ∷ []

abbrev backend : Text → Bool → Backend ℕ
backend name right = record {
  name = name;
  ingest_errors = [];
  failed = [];
  score_one = λ c q. some (result right (codes "t"));
  message = λ c q. [];
}

abbrev two : List (Backend ℕ)
two = backend (codes "a") true ∷ backend (codes "b") false ∷ []

compare_backends-IsAligned_example :
    All (IsAligned ℕ (map (λ b. keyed_of ℕ b cases) two)) (compare_backends ℕ total two cases).rows
compare_backends-IsAligned_example = compare_backends-IsAligned ℕ total two cases
