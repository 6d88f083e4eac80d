-- ===== src/Ratelimit.antt =====
-- app/internal/ratelimit/ratelimit.go: one token bucket per identity, and their eviction. The
-- bucket itself is golang.org/x/time/rate, a parameter; the mutex makes each operation atomic.
pub mod Eviction
pub mod Isolation
use maroon_ledger.Base.{
  ℕ, zero, suc, ◌+◌, ◌-◌, ◌*◌, ◌/◌, ◌%◌, ◌^◌, ◌≤◌, ◌<◌, String, ◌≡◌, refl, sym, ap, ◌∙◌, ◌≢◌, ◌↔◌,
  ◌⊎◌, inl, inr, Bool, true, false, not, ◌&&◌, ◌||◌, Option, none, some, List, [], ◌∷◌, ◌++◌, map,
  append-nil, append_assoc, arith, ltb, leb, ◌==◌, if◌then◌else◌, Bool-cases, Option-cases, is_some,
  length, length-append, All, All-append,
}
use maroon_ledger.Go.Bytes.{Bytes, bytes, bytes_eq}
use maroon_ledger.Auth.Claims.{Claims}

-- rate.Limiter at one rate and burst: a new one, Allow at a time, and whether Tokens() has come up
-- to the burst at a time.
pub record TokenBucket (L : Type 0) : Type 0 where
  pub fresh : L
  pub allow : ℕ → L → Bool × L
  pub is_full : ℕ → L → Bool

-- bucket
pub record Bucket (L : Type 0) : Type 0 where
  pub limiter : L
  pub last_seen : ℕ

-- Limiter: the map of buckets, and the idle time after which one may go.
pub record Limiter (L : Type 0) : Type 0 where
  pub buckets : Bytes → Option (Bucket L)
  pub ttl : ℕ

abbrev pub put : {V : Type 0} → Bytes → V → (Bytes → Option V) → Bytes → Option V
put key v m k = if bytes_eq key k then some v else m k

-- New
unfoldable pub new : {L : Type 0} → Limiter L
new = record { buckets = λ k. none; ttl = 10 * 60 * 1000000000 }

module _ {L : Type 0} (tb : TokenBucket L) where
  -- The bucket of a key, made if it is missing.
  abbrev pub limiter_of : Option (Bucket L) → L
  limiter_of none = tb.fresh
  limiter_of (some b) = b.limiter

  -- Allow
  unfoldable pub allow : Bytes → ℕ → Limiter L → Bool × Limiter L
  allow key now l =
      let (permitted, spent) = tb.allow now (limiter_of (l.buckets key)) in
      (
        permitted,
        record l { buckets = put key (record { limiter = spent; last_seen = now }) l.buckets },
      )

  -- Idle since before the cutoff, and back to full.
  abbrev pub is_stale : ℕ → ℕ → Bucket L → Bool
  is_stale now ttl b = ltb (b.last_seen + ttl) now && tb.is_full now b.limiter

  abbrev keep_unless_stale : ℕ → ℕ → Option (Bucket L) → Option (Bucket L)
  keep_unless_stale now ttl none = none
  keep_unless_stale now ttl (some b) = if is_stale now ttl b then none else some b

  -- One round of evictLoop.
  unfoldable pub evict : ℕ → Limiter L → Limiter L
  evict now l = record l { buckets = λ key. keep_unless_stale now l.ttl (l.buckets key) }

  -- Middleware: the status of a request that is turned away, `none` for one that is passed on.
  unfoldable pub middleware : Option Claims → ℕ → Limiter L → Option (ℕ × Bytes) × Limiter L
  middleware none now l = (some (500, bytes "Internal server error"), l)
  middleware (some claims) now l =
      let (permitted, l') = allow claims.subject now l in
      (if permitted then none else some (429, bytes "Rate limit exceeded"), l')
