-- ===== src/Server/RateLimit/Buckets.antt =====
-- The map of buckets.
use pg_mnestic.Prelude.{
  ℕ, ◌≡◌, refl, ◌∙◌, ap, false, List, [], ◌∷◌, some, Bool-cases, inl, inr, arith, leb,
}
use pg_mnestic.Text.{Text, text_eq}
use pg_mnestic.Text.Equality.{text_eq_sound, text_eq_self}
use pg_mnestic.Server.RateLimit.{Bucket, RateLimiter, find_bucket, put_bucket, spend, allow}

pub find_bucket-put_bucket :
    (key : Text) (b : Bucket) (bs : List (Text × Bucket))
    → find_bucket key (put_bucket key b bs) ≡ some b
unfolding find_bucket put_bucket
find_bucket-put_bucket key b [] = rw (text_eq_self key) refl
find_bucket-put_bucket key b ((k, c) ∷ bs) = ground (arith, find_bucket-put_bucket key b bs)

pub find_bucket-put_bucket_other :
    (key other : Text) (b : Bucket) (bs : List (Text × Bucket))
    → text_eq key other ≡ false
    → find_bucket other (put_bucket key b bs) ≡ find_bucket other bs
unfolding find_bucket put_bucket
find_bucket-put_bucket_other key other b [] h = rw h refl
find_bucket-put_bucket_other key other b ((k, c) ∷ bs) h = elim (Bool-cases (text_eq k key)) [
  | inl e ↦
      let misses : text_eq k other ≡ false =
        ap (λ x. text_eq x other) (text_eq_sound k key e) ∙ h in
      rw (e, misses) refl
  | inr e ↦ rw (e, find_bucket-put_bucket_other key other b bs h) refl
]

-- A request of one key leaves every other key's bucket as it was.
pub allow_other :
    (now : ℕ) (key other : Text) (limiter : RateLimiter)
    → text_eq key other ≡ false
    → find_bucket other (allow now key limiter).1.buckets ≡ find_bucket other limiter.buckets
unfolding allow
allow_other now key other limiter h = elim (Bool-cases (leb limiter.capacity 0)) [
  | inl e ↦ rw e refl
  | inr e ↦ rw e (
      find_bucket-put_bucket_other key other
        (spend limiter.capacity limiter.refill now (find_bucket key limiter.buckets)).1
        limiter.buckets h)
]
