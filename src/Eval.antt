-- ===== src/Eval.antt =====
-- crates/mnestic-eval: the score of a benchmark run, and the comparison of several backends.
pub mod Score
pub mod Compare
pub mod Tests
