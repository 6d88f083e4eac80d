-- ===== src/Ratelimit/Eviction.antt =====
-- Eviction cannot be observed: no key is ever answered otherwise because its bucket was dropped.
use maroon_ledger.Base.{
  ℕ, ◌≤◌, ◌≡◌, refl, sym, ap, ◌∙◌, inl, inr, Bool, true, List, [], ◌∷◌, map, arith, Bool-cases,
  Option-cases,
}
use maroon_ledger.Go.Bytes.{Bytes, bytes_eq}
use maroon_ledger.Ratelimit.{TokenBucket, Limiter, limiter_of, is_stale, allow, evict, new}

-- What happens to a limiter, with the time of it.
pub data Op : Type 0 where
  call : Bytes → ℕ → Op
  sweep : ℕ → Op

abbrev pub time_of : Op → ℕ
time_of (call key t) = t
time_of (sweep t) = t

-- Times that do not go back, from `t` on.
abbrev pub Ascending : ℕ → List ℕ → Type 0
Ascending t [] = Unit
Ascending t (u ∷ us) = (t ≤ u) × Ascending u us

-- A run without its evictions.
abbrev pub calls_only : List Op → List Op
calls_only [] = []
calls_only (call key t ∷ ops) = call key t ∷ calls_only ops
calls_only (sweep t ∷ ops) = calls_only ops

module _ {L : Type 0} (tb : TokenBucket L) where
  -- The answers of one bucket at a sequence of times.
  abbrev pub decisions : L → List ℕ → List Bool
  decisions l [] = []
  decisions l (t ∷ ts) = (tb.allow t l).0 ∷ decisions (tb.allow t l).1 ts

  -- Two buckets answer alike from a time on.
  abbrev pub Alike : ℕ → L → L → Type 0
  Alike t l m = (ts : List ℕ) → Ascending t ts → decisions l ts ≡ decisions m ts

  -- A limiter starts full: one that has come back to full answers like a new one.
  abbrev pub FullIsFresh : Type 0
  FullIsFresh = (t : ℕ) (l : L) → tb.is_full t l ≡ true → Alike t l tb.fresh

  -- The answers to the calls of a run.
  abbrev pub answers : List Op → Limiter L → List Bool
  answers [] l = []
  answers (call key t ∷ ops) l = (allow tb key t l).0 ∷ answers ops (allow tb key t l).1
  answers (sweep t ∷ ops) l = answers ops (evict tb t l)

  abbrev of_key : Bytes → Limiter L → L
  of_key key l = limiter_of tb (l.buckets key)

  -- Every key is answered alike by both limiters.
  abbrev Agrees : ℕ → Limiter L → Limiter L → Type 0
  Agrees t l m = (key : Bytes) → Alike t (of_key key l) (of_key key m)

  head-eq : {a b : Bool} {xs ys : List Bool} → ◌≡◌ {A = List Bool} (a ∷ xs) (b ∷ ys) → a ≡ b
  head-eq h = cc

  Ascending-weaken : (t u : ℕ) (ts : List ℕ) → t ≤ u → Ascending u ts → Ascending t ts
  Ascending-weaken t u [] h a = tt
  Ascending-weaken t u (v ∷ ts) h a = (omega arith, a.1)

  Alike-weaken : (t u : ℕ) (l m : L) → t ≤ u → Alike t l m → Alike u l m
  Alike-weaken t u l m h alike ts a = alike ts (Ascending-weaken t u ts h a)

  abbrev tail_of : List Bool → List Bool
  tail_of [] = []
  tail_of (b ∷ bs) = bs

  tail-eq : {a b : Bool} {xs ys : List Bool} → ◌≡◌ {A = List Bool} (a ∷ xs) (b ∷ ys) → xs ≡ ys
  tail-eq h = ap tail_of h

  -- Buckets that answer alike still do after one more call to both.
  Alike-spend :
      (t u : ℕ) (l m : L) → t ≤ u → Alike t l m → Alike u (tb.allow u l).1 (tb.allow u m).1
  Alike-spend t u l m h alike ts a = tail-eq (alike (u ∷ ts) (h, a))

  Agrees-allow :
      (key : Bytes) (t u : ℕ) (l m : Limiter L)
      → t ≤ u
      → Agrees t l m
      → Agrees u (allow tb key u l).1 (allow tb key u m).1
  unfolding allow
  Agrees-allow key t u l m h agrees k = elim (Bool-cases (bytes_eq key k)) [
    | inl e ↦ rw e (Alike-spend t u (of_key key l) (of_key key m) h (agrees key))
    | inr e ↦ rw e (Alike-weaken t u (of_key k l) (of_key k m) h (agrees k))
  ]

  -- A round of eviction on one side only.
  Agrees-evict :
      FullIsFresh → (t u : ℕ) (l m : Limiter L) → t ≤ u → Agrees t l m → Agrees u (evict tb u l) m
  unfolding evict
  Agrees-evict full t u l m h agrees k = elim (Option-cases (l.buckets k)) [
    | inl e ↦ rw e (Alike-weaken t u tb.fresh (of_key k m) h (rw e at (agrees k)))
    | inr (b, e) ↦ elim (Bool-cases (is_stale tb u l.ttl b)) [
      | inl stale ↦
          rw (e, stale)
            (λ ts a.
              sym (full u b.limiter (ground arith) ts a)
              ∙ (rw e at (agrees k)) ts (Ascending-weaken t u ts h a))
      | inr kept ↦ rw (e, kept) (Alike-weaken t u b.limiter (of_key k m) h (rw e at (agrees k)))
    ]
  ]

  -- Limiters that agree answer one call alike.
  Agrees-answer :
      (key : Bytes) (t u : ℕ) (l m : Limiter L)
      → t ≤ u
      → Agrees t l m
      → (allow tb key u l).0 ≡ (allow tb key u m).0
  unfolding allow
  Agrees-answer key t u l m h agrees = head-eq (agrees key (u ∷ []) (h, tt))

  cons-eq :
      {a b : Bool} {xs ys : List Bool} → a ≡ b → xs ≡ ys → ◌≡◌ {A = List Bool} (a ∷ xs) (b ∷ ys)
  cons-eq h k = cc

  answers-agree :
      FullIsFresh
      → (t : ℕ) (ops : List Op) (l m : Limiter L) → Ascending t (map time_of ops)
      → Agrees t l m
      → answers ops l ≡ answers (calls_only ops) m
  answers-agree full t [] l m a agrees = refl
  answers-agree full t (call key u ∷ ops) l m a agrees =
      cons-eq (Agrees-answer key t u l m a.0 agrees) (
        answers-agree full u ops (allow tb key u l).1 (allow tb key u m).1 a.1
          (Agrees-allow key t u l m a.0 agrees))
  answers-agree full t (sweep u ∷ ops) l m a agrees =
      answers-agree full u ops (evict tb u l) m a.1 (Agrees-evict full t u l m a.0 agrees)

  -- Whatever is called and swept, at times that do not go back: every call is answered as if no
  -- bucket were ever evicted. The bucket's documented behaviour is assumed, that one which has
  -- come back to full answers like a new one.
  pub eviction_unobservable :
      FullIsFresh
      → (ops : List Op) → Ascending 0 (map time_of ops)
      → answers ops new ≡ answers (calls_only ops) new
  eviction_unobservable full ops a = answers-agree full 0 ops new new a (λ k ts b. refl)
