-- ===== src/Pipeline/Firehose/Accounting.antt =====
-- The counters: every event that was offered is dropped, queued, pending, delivered or failed.
use maroon_ledger.Base.{
  ℕ, ◌+◌, ◌%◌, ◌^◌, ◌≤◌, ◌<◌, ◌≡◌, refl, ap, inl, inr, List, [], ◌∷◌, arith, Option-cases, length,
  length-append,
}
use maroon_ledger.Go.Bytes.{Bytes}
use maroon_ledger.Pipeline.Event.{Event}
use maroon_ledger.Pipeline.Encode.{Writer, encode}
use maroon_ledger.Pipeline.Firehose.{
  Emitter, PutReply, put_error, put_ok, failed_count, emit, deliver, flush, append, handle,
  new_emitter, max_records_per_batch,
}
use maroon_ledger.Pipeline.Firehose.Batches.{Reach-IsBounded}
use maroon_ledger.Pipeline.Firehose.Steps.{
  Step, offer, receive, tick, close, see_done, finish, Reach, here, next,
}

-- The records that a reply says were rejected, if there is a reply.
abbrev pub rejected : PutReply → ℕ
rejected put_error = 0
rejected (put_ok n) = failed_count n

module _ {F : Type 0} where
  -- Where the events are that have been offered.
  abbrev pub tally : Emitter F → ℕ
  tally s = s.dropped + length s.events + length s.pending + s.delivered + s.failed

  deliver-tally :
      (reply : PutReply) (batch : List Bytes) (s : Emitter F)
      → rejected reply ≤ length batch
      → length batch < 2 ^ 64
      → ((deliver reply batch s).delivered + (deliver reply batch s).failed) % 2 ^ 64
        ≡ (s.delivered + s.failed + length batch) % 2 ^ 64
  unfolding deliver
  deliver-tally put_error batch s h small = omega arith
  deliver-tally (put_ok n) batch s h small = omega arith

  deliver_keeps :
      (reply : PutReply) (batch : List Bytes) (s : Emitter F)
      → ((deliver reply batch s).dropped ≡ s.dropped) × ((deliver reply batch s).events ≡ s.events)
  unfolding deliver
  deliver_keeps put_error batch s = (refl, refl)
  deliver_keeps (put_ok n) batch s = (refl, refl)

  flush-tally :
      (reply : PutReply) (s : Emitter F)
      → rejected reply ≤ length s.pending
      → length s.pending < 2 ^ 64
      → tally (flush reply s) % 2 ^ 64 ≡ tally s % 2 ^ 64
  unfolding flush
  flush-tally reply s h small = split s.pending refl
    where
      counted :
          ((deliver reply s.pending s).delivered + (deliver reply s.pending s).failed) % 2 ^ 64
          ≡ (s.delivered + s.failed + length s.pending) % 2 ^ 64
      counted = deliver-tally reply s.pending s h small

      kept :
          ((deliver reply s.pending s).dropped ≡ s.dropped)
          × ((deliver reply s.pending s).events ≡ s.events)
      kept = deliver_keeps reply s.pending s

      split :
          (batch : List Bytes)
          → s.pending ≡ batch
          → tally (flush reply s) % 2 ^ 64 ≡ tally s % 2 ^ 64
      split [] e = ground arith
      split (r ∷ rs) e = ground (arith, counted, kept)

  append-tally :
      (reply : PutReply) (r : Bytes) (s : Emitter F)
      → rejected reply ≤ length s.pending
      → length s.pending < 2 ^ 64
      → tally (append reply r s) % 2 ^ 64 ≡ (tally s + 1) % 2 ^ 64
  unfolding append
  append-tally reply r s h small = ground (
    arith,
    flush-tally reply s h small,
    length-append (flush reply s).pending (r ∷ []),
    length-append s.pending (r ∷ []),
  )

  handle-tally :
      (wr : Writer F) (reply : PutReply) (e : Event F) (s : Emitter F)
      → rejected reply ≤ length s.pending
      → length s.pending < 2 ^ 64
      → tally (handle wr reply e s) % 2 ^ 64 ≡ (tally s + 1) % 2 ^ 64
  unfolding handle
  handle-tally wr reply e s h small = elim (Option-cases (encode wr e)) [
    | inl bad ↦ ground arith
    | inr (r, good) ↦ ground (arith, append-tally reply r s h small)
  ]

  emit-tally : (e : Event F) (s : Emitter F) → tally (emit e s) % 2 ^ 64 ≡ (tally s + 1) % 2 ^ 64
  unfolding emit
  emit-tally e s = ground (arith, length-append s.events (e ∷ []))

-- A reply rejects no more records than the batch had.
abbrev pub IsHonest :
    {F : Type 0} {wr : Writer F} {s t : Emitter F} {more : List (Event F)}
    → Step wr s more t
    → Type 0
IsHonest (offer e) = Unit
IsHonest {s} (receive reply e rest m q) = rejected reply ≤ length s.pending
IsHonest {s} (tick reply m) = rejected reply ≤ length s.pending
IsHonest (close c) = Unit
IsHonest (see_done m c) = Unit
IsHonest {s} (finish reply m q) = rejected reply ≤ length s.pending

abbrev offered_at :
    {F : Type 0} {wr : Writer F} {s t : Emitter F} {more : List (Event F)} → Step wr s more t → ℕ
offered_at (offer e) = 1
offered_at (receive reply e rest m q) = 0
offered_at (tick reply m) = 0
offered_at (close c) = 0
offered_at (see_done m c) = 0
offered_at (finish reply m q) = 0

-- The calls of Emit in a run, and that all its replies are honest.
abbrev pub offers :
    {F : Type 0} {wr : Writer F} {start s : Emitter F} {accepted : List (Event F)}
    → Reach wr start accepted s
    → ℕ
offers here = 0
offers (next r st) = offers r + offered_at st

abbrev pub AllHonest :
    {F : Type 0} {wr : Writer F} {start s : Emitter F} {accepted : List (Event F)}
    → Reach wr start accepted s
    → Type 0
AllHonest here = Unit
AllHonest (next r st) = AllHonest r × IsHonest st

module _ {F : Type 0} (wr : Writer F) where
  Step-tally :
      {s t : Emitter F} {more : List (Event F)} (st : Step wr s more t)
      → IsHonest st
      → length s.pending ≤ max_records_per_batch
      → tally t % 2 ^ 64 ≡ (tally s + offered_at st) % 2 ^ 64
  Step-tally {s} (offer e) h small = emit-tally e s
  Step-tally {s} (receive reply e rest m q) h small =
      let s' : Emitter F = record s { events = rest } in
      omega (arith, handle-tally wr reply e s' h (omega arith), ap length q)
  Step-tally {s} (tick reply m) h small = omega (arith, flush-tally reply s h (omega arith))
  Step-tally (close c) h small = omega arith
  Step-tally (see_done m c) h small = omega arith
  Step-tally {s} (finish reply m q) h small = omega (arith, flush-tally reply s h (omega arith))

  -- In every run in which the service rejects no more records than it was sent, the events dropped,
  -- queued, pending, delivered and failed add up to the calls of Emit, modulo 2^64 as the counters
  -- are: no event is unaccounted for, none is counted twice.
  pub offers_accounted :
      (size : ℕ) {s : Emitter F} {accepted : List (Event F)}
      (r : Reach wr (new_emitter size) accepted s)
      → AllHonest r
      → tally s % 2 ^ 64 ≡ offers r % 2 ^ 64
  unfolding new_emitter
  offers_accounted size here h = omega arith
  offers_accounted size (next r st) h =
      omega
        (arith, Step-tally st h.1 (Reach-IsBounded wr size r).short, offers_accounted size r h.0)
