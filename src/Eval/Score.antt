-- ===== src/Eval/Score.antt =====
-- crates/mnestic-eval/src/score.rs. A quotient of two counts is kept as the two counts.
pub mod Buckets
use Prim.Native.Nat.Ordering.{lt, eq, gt}
use pg_mnestic.Prelude.{
  ℕ, zero, suc, ◌+◌, Bool, true, false, List, [], ◌∷◌, map, Option, none, some, Ordering, compare,
  if◌then◌else◌, filter, length, is_empty,
}
use pg_mnestic.Text.{Text, codes}

-- `QuestionResult`, with the latency in a type of f64 values.
pub record QuestionResult (F : Type 0) : Type 0 where
  pub correct : Bool
  pub query_latency_ms : F
  pub recalled_context_tokens : ℕ
  pub category : Option Text
  pub abstention : Bool
  pub question : Text
  pub gold : Text
  pub predicted : Text
  pub recalled : List Text

-- The accuracy of a type is `correct` of `n`.
pub record TypeScore : Type 0 where
  pub question_type : Text
  pub n : ℕ
  pub correct : ℕ

-- The averages are the totals over `n`, 0 where there are no results.
pub record MemScore (F : Type 0) : Type 0 where
  pub n : ℕ
  pub correct : ℕ
  pub total_query_latency_ms : F
  pub total_recalled_context_tokens : ℕ
  pub per_type : List TypeScore

-- The order of `String`.
unfoldable pub compare_text : Text → Text → Ordering
compare_text [] [] = eq
compare_text [] (d ∷ t) = lt
compare_text (c ∷ s) [] = gt
compare_text (c ∷ s) (d ∷ t) = elim (compare c d) [ lt ↦ lt | eq ↦ compare_text s t | gt ↦ gt ]

-- An entry of the `BTreeMap`: how many results of the key are correct, and how many there are.
pub record Group : Type 0 where
  pub key : Text
  pub correct : ℕ
  pub n : ℕ

-- The counts after one more result.
abbrev pub counted : Bool → Group → Group
counted true g = record g { correct = suc g.correct; n = suc g.n }
counted false g = record g { n = suc g.n }

-- `or_insert((0, 0))`.
abbrev pub new_group : Text → Group
new_group key = record { key = key; correct = 0; n = 0 }

-- `groups.entry(key)` and the two increments; the keys of the map are in order.
unfoldable pub tally : Text → Bool → List Group → List Group
unfolding compare_text
tally key correct [] = counted correct (new_group key) ∷ []
tally key correct (g ∷ groups) =
    let rest = tally key correct groups in
    elim (compare_text key g.key) [
      | lt ↦ counted correct (new_group key) ∷ g ∷ groups
      | eq ↦ counted correct g ∷ groups
      | gt ↦ g ∷ rest
    ]

module _ (F : Type 0) where
  -- The bucket of a result.
  abbrev pub bucket : QuestionResult F → Text
  bucket r =
      if r.abstention
      then codes "abstention"
      else (elim r.category [ none ↦ codes "untyped" | some c ↦ c ])

  -- `for r in results`, from the groups so far.
  unfoldable pub tally_all : List (QuestionResult F) → List Group → List Group
  unfolding tally
  tally_all [] groups = groups
  tally_all (r ∷ rs) groups = tally_all rs (tally (bucket r) r.correct groups)

  abbrev pub to_type_score : Group → TypeScore
  to_type_score g = record { question_type = g.key; n = g.n; correct = g.correct }

  abbrev pub total_tokens : List (QuestionResult F) → ℕ
  total_tokens [] = 0
  total_tokens (r ∷ rs) = r.recalled_context_tokens + total_tokens rs

  -- `from_results`; `sum` is the sum of f64 values.
  unfoldable pub from_results : (List F → F) → List (QuestionResult F) → MemScore F
  unfolding tally_all
  from_results sum results = record {
    n = length results;
    correct = length (filter (λ (r : QuestionResult F). r.correct) results);
    total_query_latency_ms = sum (map (λ (r : QuestionResult F). r.query_latency_ms) results);
    total_recalled_context_tokens = total_tokens results;
    per_type = map to_type_score (tally_all results []);
  }
