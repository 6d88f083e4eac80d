-- ===== src/Ratelimit/Isolation.antt =====
-- The middleware: whom a request is charged to, and when it is turned away.
use maroon_ledger.Base.{
  ℕ, ◌≡◌, refl, sym, ◌≢◌, ◌↔◌, inl, inr, true, Option, none, some, arith, Bool-cases,
}
use maroon_ledger.Go.Bytes.{Bytes, bytes, bytes_eq, bytes_eq_iff, bytes_eq_refl}
use maroon_ledger.Auth.Claims.{Claims}
use maroon_ledger.Ratelimit.{TokenBucket, Limiter, limiter_of, allow, middleware, put}

module _ {L : Type 0} (tb : TokenBucket L) where
  abbrev pub of_key : Bytes → Limiter L → L
  of_key key l = limiter_of tb (l.buckets key)

  -- What the middleware may do with a request.
  abbrev pub ChargesOwn : Option Claims → ℕ → Limiter L → Option (ℕ × Bytes) × Limiter L → Type 0
  ChargesOwn none now l (answer, l') =
      (answer ≡ some (500, bytes "Internal server error")) × (l' ≡ l)
  ChargesOwn (some claims) now l (answer, l') =
      let (permitted, spent) = tb.allow now (of_key claims.subject l) in
      ((answer ≡ none) ↔ (permitted ≡ true))
      × (of_key claims.subject l' ≡ spent)
      × ((key : Bytes) → key ≢ claims.subject → l'.buckets key ≡ l.buckets key)

  put_other :
      {V : Type 0} (k key : Bytes) (v : V) (m : Bytes → Option V) → key ≢ k → put k v m key ≡ m key
  put_other k key v m h = elim (Bool-cases (bytes_eq k key)) [
    | inl e ↦ absurd (h (sym ((bytes_eq_iff k key).0 e)))
    | inr e ↦ rw e
  ]

  -- A request without claims is refused with 500 and charged to nobody. One with claims takes
  -- from the bucket of its own subject and from no other, and is passed on exactly when that
  -- bucket permits it.
  pub middleware-ChargesOwn :
      (claims : Option Claims) (now : ℕ) (l : Limiter L)
      → ChargesOwn claims now l (middleware tb claims now l)
  unfolding middleware allow
  middleware-ChargesOwn none now l = (refl, refl)
  middleware-ChargesOwn (some claims) now l = (
    elim (Bool-cases (tb.allow now (of_key claims.subject l)).0) [
      | inl e ↦ rw e (λ h. refl, λ h. refl)
      | inr e ↦ rw e (λ h. absurd (ground arith), λ h. absurd (ground arith))
    ],
    rw (bytes_eq_refl claims.subject),
    λ key h. put_other claims.subject key _ l.buckets h,
  )
