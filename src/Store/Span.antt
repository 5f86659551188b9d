-- ===== src/Store/Span.antt =====
-- `tstzrange` as the statements use it: half open, each end perhaps unbounded.
use pg_mnestic.Prelude.{Bool, true, false, ◌&&◌, Option, none, some, ltb, ◌==◌, if◌then◌else◌}
use pg_mnestic.Core.Types.{Time}

pub data Span : Type 0 where
  empty : Span
  span : Option Time → Option Time → Span

-- `lower(r)`, NULL for an empty range or an unbounded one.
unfoldable pub lower : Span → Option Time
lower empty = none
lower (span from until) = from

-- `tstzrange(a, b)`: empty where the ends meet, and an error (`none`) where they are reversed.
unfoldable pub tstzrange : Option Time → Option Time → Option Span
tstzrange (some a) (some b) =
    if ltb b a then none else if a == b then some empty else some (span (some a) (some b))
tstzrange (some a) none = some (span (some a) none)
tstzrange none b = some (span none b)

-- `start < end` of two ranges, an unbounded end being beyond every start.
unfoldable pub starts_before_end : Option Time → Option Time → Bool
starts_before_end (some a) (some b) = ltb a b
starts_before_end (some a) none = true
starts_before_end none b = true

-- `r && s`.
unfoldable pub overlaps : Span → Span → Bool
unfolding starts_before_end
overlaps empty s = false
overlaps (span a b) empty = false
overlaps (span a b) (span c d) = starts_before_end a d && starts_before_end c b
