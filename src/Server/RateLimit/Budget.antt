-- ===== src/Server/RateLimit/Budget.antt =====
-- How many requests a key is allowed over time.
use pg_mnestic.Prelude.{
  ℕ, suc, ◌+◌, ◌-◌, ◌*◌, ◌≤◌, ◌<◌, ◌≡◌, refl, sym, ◌∙◌, ap, subst, Bool, true, false, ◌&&◌, List,
  [], ◌∷◌, Option, none, some, Bool-cases, inl, inr, if◌then◌else◌, arith, leb,
}
use native.Mathlib.Nat.{add-mul}
use pg_mnestic.Text.{Text, text_eq}
use pg_mnestic.Text.Equality.{text_eq_sound}
use pg_mnestic.Server.RateLimit.{
  Bucket, RateLimiter, token, per_minute, find_bucket, put_bucket, refilled, spend, allow,
}
use pg_mnestic.Server.RateLimit.Buckets.{find_bucket-put_bucket, find_bucket-put_bucket_other}

-- The requests allowed to `key` among requests of several keys, each with its time.
unfoldable pub allowed : Text → List (ℕ × Text) → RateLimiter → ℕ
unfolding allow
allowed key [] limiter = 0
allowed key ((now, k) ∷ requests) limiter =
    let (answer, limiter') = allow now k limiter in
    let rest = allowed key requests limiter' in if text_eq k key && answer then suc rest else rest

-- The clock does not go back.
unfoldable pub Ordered : ℕ → List (ℕ × Text) → Type 0
Ordered start [] = Unit {0}
Ordered start ((now, k) ∷ requests) = (start ≤ now) × Ordered now requests

unfoldable pub end_time : ℕ → List (ℕ × Text) → ℕ
end_time start [] = start
end_time start ((now, k) ∷ requests) = end_time now requests

-- What a key could spend at `at`.
credit : ℕ → ℕ → ℕ → Option Bucket → ℕ
credit capacity refill at none = capacity
credit capacity refill at (some b) = b.tokens + (at - b.last) * refill

IsPast : ℕ → Option Bucket → Type 0
IsPast at none = Unit {0}
IsPast at (some b) = b.last ≤ at

cost : Bool → ℕ
cost true = token
cost false = 0

end_time-le : (start : ℕ) (rs : List (ℕ × Text)) → Ordered start rs → start ≤ end_time start rs
unfolding Ordered end_time
end_time-le start [] o = omega arith
end_time-le start ((now, k) ∷ rs) o =
    let ih = end_time-le now rs o.1 in let first = o.0 in omega arith

gap_add : (a b c r : ℕ) → a ≤ b → b ≤ c → (b - a) * r + (c - b) * r ≡ (c - a) * r
gap_add a b c r h k = sym (add-mul (b - a) (c - b) r) ∙ ap (λ x. x * r) (omega arith)

credit_later :
    (capacity refill start now : ℕ) (o : Option Bucket)
    → IsPast start o
    → start ≤ now
    → credit capacity refill now o ≤ credit capacity refill start o + (now - start) * refill
unfolding credit IsPast
credit_later capacity refill start now none p h = omega arith
credit_later capacity refill start now (some b) p h =
    let gap = gap_add b.last start now refill p h in omega arith

IsPast-later : (start now : ℕ) (o : Option Bucket) → IsPast start o → start ≤ now → IsPast now o
unfolding IsPast
IsPast-later start now none p h = tt
IsPast-later start now (some b) p h = omega arith

spend-credit :
    (capacity refill now : ℕ) (o : Option Bucket)
    → token ≤ capacity
    → cost (spend capacity refill now o).0 + (spend capacity refill now o).1.tokens
      ≤ credit capacity refill now o
unfolding credit spend refilled cost
spend-credit capacity refill now none full = ground arith
spend-credit capacity refill now (some b) full = ground arith

spend-last :
    (capacity refill now : ℕ) (o : Option Bucket) → (spend capacity refill now o).1.last ≡ now
unfolding spend
spend-last capacity refill now none = refl
spend-last capacity refill now (some b) = ground arith

-- What a key's requests cost fits what it could spend at the start and the refill since.
Fits : Text → List (ℕ × Text) → RateLimiter → ℕ → Type 0
Fits key rs limiter start =
    allowed key rs limiter * token
    ≤ credit limiter.capacity limiter.refill start (find_bucket key limiter.buckets)
      + (end_time start rs - start) * limiter.refill

spent-IsPast :
    (capacity refill now : ℕ) (o : Option Bucket)
    → IsPast now (some (spend capacity refill now o).1)
unfolding IsPast
spent-IsPast capacity refill now o = let last = spend-last capacity refill now o in omega arith

credit-spent :
    (capacity refill now : ℕ) (o : Option Bucket)
    → credit capacity refill now (some (spend capacity refill now o).1)
      ≡ (spend capacity refill now o).1.tokens
unfolding credit
credit-spent capacity refill now o =
    let last = spend-last capacity refill now o in
    let none_since : now - (spend capacity refill now o).1.last ≡ 0 = omega arith in
    rw none_since (omega arith)

if-cost : (b : Bool) (n : ℕ) → (if b then suc n else n) * token ≡ cost b + n * token
unfolding cost
if-cost true n = omega arith
if-cost false n = omega arith

-- The limiter after a request of `k`.
abbrev after : ℕ → Text → RateLimiter → RateLimiter
unfolding find_bucket put_bucket spend
after now k limiter = record limiter {
  buckets =
      put_bucket k (spend limiter.capacity limiter.refill now (find_bucket k limiter.buckets)).1
        limiter.buckets;
}

allowed-Fits :
    (key : Text) (rs : List (ℕ × Text)) (limiter : RateLimiter) (start : ℕ)
    → Ordered start rs
    → IsPast start (find_bucket key limiter.buckets)
    → token ≤ limiter.capacity
    → Fits key rs limiter start
unfolding Fits allowed Ordered end_time allow
allowed-Fits key [] limiter start o p full = omega arith
allowed-Fits key ((now, k) ∷ rs) limiter start o p full =
    let enabled : leb limiter.capacity 0 ≡ false = ground arith in
    let at_now = IsPast-later start now (find_bucket key limiter.buckets) p o.0 in
    let later =
      credit_later limiter.capacity limiter.refill start now (find_bucket key limiter.buckets) p
        o.0 in
    let gap = gap_add start now (end_time now rs) limiter.refill o.0 (end_time-le now rs o.1) in
    let bucket = (spend limiter.capacity limiter.refill now (find_bucket k limiter.buckets)).1 in
    let ih : (x : Option Bucket)
        → find_bucket key (put_bucket k bucket limiter.buckets) ≡ x
        → IsPast now x
        → allowed key rs (after now k limiter) * token
          ≤ credit limiter.capacity limiter.refill now x
            + (end_time now rs - now) * limiter.refill =
      (λ x found past.
        subst
          (λ y.
            allowed key rs (after now k limiter) * token
            ≤ credit limiter.capacity limiter.refill now y
              + (end_time now rs - now) * limiter.refill)
          found
          (allowed-Fits key rs (after now k limiter) now o.1 (subst (IsPast now) (sym found) past)
            full)) in
    rw enabled (elim (Bool-cases (text_eq k key)) [
      | inl e ↦
          let same = text_eq_sound k key e in
          let rest =
            ih (some bucket)
              (ap (λ x. find_bucket x (put_bucket k bucket limiter.buckets)) (sym same)
                ∙ find_bucket-put_bucket k bucket limiter.buckets)
              (spent-IsPast limiter.capacity limiter.refill now (find_bucket k limiter.buckets)) in
          let level =
            credit-spent limiter.capacity limiter.refill now (find_bucket k limiter.buckets) in
          let paid =
            subst
              (λ x.
                cost (spend limiter.capacity limiter.refill now (find_bucket k limiter.buckets)).0
                  + bucket.tokens
                ≤ credit limiter.capacity limiter.refill now (find_bucket x limiter.buckets))
              same
              (spend-credit limiter.capacity limiter.refill now (find_bucket k limiter.buckets)
                full) in
          let count =
            if-cost (spend limiter.capacity limiter.refill now (find_bucket k limiter.buckets)).0
              (allowed key rs (after now k limiter)) in
          rw e (omega arith)
      | inr e ↦
          let rest =
            ih (find_bucket key limiter.buckets)
              (find_bucket-put_bucket_other k key bucket limiter.buckets e) at_now in
          rw e (omega arith)
    ])

-- Of any requests at times that do not go back, whatever their keys, a key of a limiter of `n` per
-- minute, `n` not 0, is allowed at most `n` and those that `n` per minute gives for the time that passed.
pub allowed-le :
    (key : Text) (rs : List (ℕ × Text)) (start n : ℕ)
    → 0 < n
    → Ordered start rs
    → allowed key rs (per_minute n) * token ≤ n * token + (end_time start rs - start) * n
unfolding Fits IsPast credit per_minute find_bucket
allowed-le key rs start n pos o = allowed-Fits key rs (per_minute n) start o tt (omega arith)
