-- ===== src/Core/Types.antt =====
-- crates/mnestic-core/src/types.rs and traits.rs. A `DateTime<Utc>` is its number of microseconds, an
-- `f32` confidence a number of thousandths.
use pg_mnestic.Prelude.{ℕ, Bool, List, Option, none, some}
use pg_mnestic.Text.{Text, codes}

abbrev pub Time : Type 0
Time = ℕ

pub data MemType : Type 0 where
  fact preference episode : MemType

pub data Temporal : Type 0 where
  as_of : Time → Temporal
  range : Option Time → Option Time → Temporal
  unknown : Temporal

-- `Temporal::valid_from` and `Temporal::valid_until`.
unfoldable pub temporal_from : Temporal → Option Time
temporal_from (as_of timestamp) = some timestamp
temporal_from (range from to) = from
temporal_from unknown = none

unfoldable pub temporal_until : Temporal → Option Time
temporal_until (as_of timestamp) = none
temporal_until (range from to) = to
temporal_until unknown = none

pub record Candidate : Type 0 where
  pub content : Text
  pub subject : Option Text
  pub attribute : Option Text
  pub value : Option Text
  pub single_valued : Bool
  pub mem_type : MemType
  pub confidence : ℕ
  pub is_static : Bool
  pub temporal : Temporal
  pub forget_after : Option Time

pub record ExistingMatch : Type 0 where
  pub id : Text
  pub value : Option Text
  pub single_valued : Bool
  pub valid_from : Option Time

pub data ResolveAction : Type 0 where
  dedup : Text → ResolveAction
  supersede : List Text → ResolveAction
  insert : ResolveAction

-- What a reranker returns; the score is not read by its caller.
pub record Scored : Type 0 where
  pub index : ℕ
  pub content : Text
  pub score : ℕ

pub data Relation : Type 0 where
  extends derives : Relation

unfoldable pub relation_str : Relation → Text
relation_str extends = codes "extends"
relation_str derives = codes "derives"

pub record RelationEdge : Type 0 where
  pub index : ℕ
  pub relation : Relation
