-- ===== src/Engine/Write/Segments.antt =====
-- The validity of a historical row among the starts that are known.
use pg_mnestic.Prelude.{
  ◌≤◌, ◌<◌, min, ◌≡◌, refl, sym, ◌∙◌, ap, ◌⊎◌, inl, inr, Bool, true, false, ◌&&◌, List, [], ◌∷◌,
  Option, none, some, arith, ltb, leb, any, All, All-imp, In, Bool-cases,
}
use pg_mnestic.Text.{Text, text_eq, opt_text_eq}
use pg_mnestic.Text.Equality.{text_eq_sound, text_eq_self}
use pg_mnestic.Core.Types.{Time, temporal_until}
use pg_mnestic.Store.Span.{Span, empty, span, tstzrange, overlaps}
use pg_mnestic.Store.Db.{MemoryRow}
use pg_mnestic.Store.Memories.{opt_key_eq}
use pg_mnestic.Engine.Write.{
  MemoryWrite, interval_from, interval_until, earlier_end, next_segment, after_start,
}

-- An end, if there is one, is after `t`.
abbrev pub EndsAfter : Time → Option Time → Type 0
EndsAfter t none = Unit
EndsAfter t (some u) = t < u

-- An end is not beyond `t`: an open one is.
abbrev pub EndsBy : Option Time → Time → Type 0
EndsBy none t = ⊥
EndsBy (some u) t = u ≤ t

interval_until-EndsAfter : (w : MemoryWrite) → EndsAfter (interval_from w) (interval_until w)
unfolding interval_until
interval_until-EndsAfter w =
    after_start-EndsAfter (interval_from w) (temporal_until w.cand.temporal)
  where
    after_start-EndsAfter : (t : Time) (o : Option Time) → EndsAfter t (after_start t o)
    after_start-EndsAfter t none = tt
    after_start-EndsAfter t (some u) = elim (Bool-cases (ltb t u)) [
      | inl e ↦ rw e (ground arith)
      | inr e ↦ rw e tt
    ]

next_segment-EndsAfter : (t : Time) (ss : List Time) → EndsAfter t (next_segment t ss)
unfolding next_segment
next_segment-EndsAfter t [] = tt
next_segment-EndsAfter t (s ∷ ss) =
    let ih = next_segment-EndsAfter t ss in
    elim (Bool-cases (ltb t s)) [
      | inr e ↦ rw e ih
      | inl e ↦ rw e (least (next_segment t ss) (ground arith) ih)
    ]
  where
    least :
        (o : Option Time)
        → t < s
        → EndsAfter t o
        → EndsAfter t (elim o [ none ↦ some s | some u ↦ some (min s u) ])
    least none h k = h
    least (some u) h k = omega arith

earlier_end-EndsAfter :
    (t : Time) (o p : Option Time) → EndsAfter t o → EndsAfter t p → EndsAfter t (earlier_end o p)
earlier_end-EndsAfter t none p h k = k
earlier_end-EndsAfter t (some u) none h k = h
earlier_end-EndsAfter t (some u) (some v) h k = omega arith

next_segment-head : (t s : Time) (ss : List Time) → (s ≤ t) ⊎ EndsBy (next_segment t (s ∷ ss)) s
unfolding next_segment
next_segment-head t s ss = elim (Bool-cases (ltb t s)) [
  | inr e ↦ inl (ground arith)
  | inl e ↦ inr (rw e (least (next_segment t ss)))
]
  where
    least : (o : Option Time) → EndsBy (elim o [ none ↦ some s | some u ↦ some (min s u) ]) s
    least none = omega arith
    least (some u) = omega arith

next_segment-tail :
    (t s x : Time) (ss : List Time)
    → EndsBy (next_segment t ss) x
    → EndsBy (next_segment t (s ∷ ss)) x
unfolding next_segment
next_segment-tail t s x ss h = elim (Bool-cases (ltb t s)) [
  | inr e ↦ rw e h
  | inl e ↦ rw e (least (next_segment t ss) h)
]
  where
    least :
        (o : Option Time)
        → EndsBy o x
        → EndsBy (elim o [ none ↦ some s | some u ↦ some (min s u) ]) x
    least none h = absurd h
    least (some u) h = omega arith

-- A known start is at or before `t`, or at or after the next one.
pub next_segment-bound :
    (t : Time) (ss : List Time) → All (λ s. (s ≤ t) ⊎ EndsBy (next_segment t ss) s) ss
next_segment-bound t [] = tt
next_segment-bound t (s ∷ ss) = (
  next_segment-head t s ss,
  All-imp (λ x. elim [ inl e ↦ inl e | inr e ↦ inr (next_segment-tail t s x ss e) ]) ss
      (next_segment-bound t ss),
)

pub earlier_end-EndsBy : (o p : Option Time) (x : Time) → EndsBy p x → EndsBy (earlier_end o p) x
earlier_end-EndsBy none p x h = h
earlier_end-EndsBy (some u) none x h = absurd h
earlier_end-EndsBy (some u) (some v) x h = omega arith

-- The upper end of the historical row.
abbrev pub history_end : MemoryWrite → List Time → Option Time
history_end w starts = earlier_end (interval_until w) (next_segment (interval_from w) starts)

pub history_end-EndsAfter :
    (w : MemoryWrite) (starts : List Time) → EndsAfter (interval_from w) (history_end w starts)
history_end-EndsAfter w starts =
    earlier_end-EndsAfter (interval_from w) _ _ (interval_until-EndsAfter w)
      (next_segment-EndsAfter (interval_from w) starts)

pub tstzrange-proper :
    (t : Time) (o : Option Time) → EndsAfter t o → tstzrange (some t) o ≡ some (span (some t) o)
unfolding tstzrange
tstzrange-proper t none h = refl
tstzrange-proper t (some u) h = ground arith

-- Validity at a moment.
unfoldable pub holds_at : Span → Time → Bool
holds_at empty t = false
holds_at (span from until) t =
    (elim from [ none ↦ true | some a ↦ leb a t ])
    && (elim until [ none ↦ true | some b ↦ ltb t b ])

pub overlaps-holds_at :
    (t : Time) (until : Option Time) (v : Span)
    → EndsAfter t until
    → holds_at v t ≡ true
    → overlaps (span (some t) until) v ≡ true
unfolding overlaps holds_at
overlaps-holds_at t until empty h k = ground arith
overlaps-holds_at t none (span none none) h k = refl
overlaps-holds_at t none (span none (some b)) h k = ground arith
overlaps-holds_at t none (span (some a) none) h k = ground arith
overlaps-holds_at t none (span (some a) (some b)) h k = ground arith
overlaps-holds_at t (some u) (span none none) h k = ground arith
overlaps-holds_at t (some u) (span none (some b)) h k = ground arith
overlaps-holds_at t (some u) (span (some a) none) h k = ground arith
overlaps-holds_at t (some u) (span (some a) (some b)) h k = ground arith

pub any-of_In :
    (p : MemoryRow → Bool) (r : MemoryRow) (rs : List MemoryRow)
    → In r rs
    → p r ≡ true
    → any p rs ≡ true
any-of_In p r [] i h = absurd i
any-of_In p r (x ∷ xs) (inl e) h = let k : p x ≡ true = ap p (sym e) ∙ h in rw k
any-of_In p r (x ∷ xs) (inr i) h = rw (any-of_In p r xs i h) (ground arith)

pub text_eq_flip : (s t : Text) → text_eq s t ≡ true → text_eq t s ≡ true
text_eq_flip s t h = rw (text_eq_sound s t h) (text_eq_self t)

pub opt_key_eq_flip :
    (o : Option Text) (s : Text) → opt_text_eq o (some s) ≡ true → opt_key_eq (some s) o ≡ true
unfolding opt_text_eq
opt_key_eq_flip none s h = ground arith
opt_key_eq_flip (some t) s h = text_eq_flip t s h
