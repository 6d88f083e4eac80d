-- ===== src/Pipeline/Firehose/Batches.antt =====
-- The limits of the service hold of every batch that is sent.
use maroon_ledger.Base.{
  ℕ, ◌+◌, ◌≤◌, ◌<◌, ◌≡◌, refl, ◌⊎◌, inl, inr, ◌||◌, some, List, [], ◌∷◌, ◌++◌, arith, ltb, leb,
  Bool-cases, Option-cases, length, length-append, All, All-append,
}
use maroon_ledger.Go.Bytes.{Bytes}
use maroon_ledger.Pipeline.Event.{Event}
use maroon_ledger.Pipeline.Encode.{Writer, max_record_bytes, encode}
use maroon_ledger.Pipeline.Firehose.{
  Emitter, PutReply, put_error, put_ok, max_records_per_batch, max_batch_bytes, emit, deliver,
  flush, append, handle, new_emitter,
}
use maroon_ledger.Pipeline.Firehose.Steps.{
  Step, offer, receive, tick, close, see_done, finish, Reach, here, next,
}

abbrev pub total_bytes : List Bytes → ℕ
total_bytes [] = 0
total_bytes (r ∷ rs) = length r + total_bytes rs

total_bytes-append : (rs ss : List Bytes) → total_bytes (rs ++ ss) ≡ total_bytes rs + total_bytes ss
total_bytes-append [] ss = omega arith
total_bytes-append (r ∷ rs) ss = omega (arith, total_bytes-append rs ss)

-- What PutRecordBatch takes: 1 to 500 records, of 4 MiB together.
abbrev pub Fits : List Bytes → Type 0
Fits batch =
    (0 < length batch)
    × (length batch ≤ max_records_per_batch)
    × (total_bytes batch ≤ max_batch_bytes)

pub record IsBounded {F : Type 0} (s : Emitter F) : Type 0 where
  pub counted : s.pending_bytes ≡ total_bytes s.pending
  pub short : length s.pending ≤ max_records_per_batch
  pub light : total_bytes s.pending ≤ max_batch_bytes
  pub sent_fit : All Fits s.sent

encode-le :
    {F : Type 0} (wr : Writer F) (e : Event F) (r : Bytes)
    → encode wr e ≡ some r
    → length r ≤ max_record_bytes
unfolding encode
encode-le wr e r h = ground arith

module _ {F : Type 0} where
  deliver-sent :
      (reply : PutReply) (batch : List Bytes) (s : Emitter F)
      → (deliver reply batch s).sent ≡ s.sent ++ batch ∷ []
  unfolding deliver
  deliver-sent put_error batch s = refl
  deliver-sent (put_ok n) batch s = refl

  -- The batch that goes out when `pending` is flushed.
  pub flush-sent :
      (reply : PutReply) (s : Emitter F)
      → (s.pending ≡ []) × (flush reply s ≡ s)
        ⊎ (0 < length s.pending)
          × ((flush reply s).sent ≡ s.sent ++ s.pending ∷ [])
          × ((flush reply s).pending ≡ [])
          × ((flush reply s).pending_bytes ≡ 0)
  unfolding flush
  flush-sent reply s = split s.pending refl
    where
      split :
          (batch : List Bytes)
          → s.pending ≡ batch
          → (s.pending ≡ []) × (flush reply s ≡ s)
            ⊎ (0 < length s.pending)
              × ((flush reply s).sent ≡ s.sent ++ s.pending ∷ [])
              × ((flush reply s).pending ≡ [])
              × ((flush reply s).pending_bytes ≡ 0)
      split [] e = inl (e, ground arith)
      split (r ∷ rs) e =
          inr (
            ground arith,
            ground (arith, deliver-sent reply s.pending s),
            ground arith,
            ground arith,
          )

  -- After a flush nothing is pending, and what was is a batch that fits.
  flush-IsBounded :
      (reply : PutReply) (s : Emitter F)
      → IsBounded s
      → IsBounded (flush reply s) × ((flush reply s).pending ≡ [])
  flush-IsBounded reply s b = elim (flush-sent reply s) [
    | inl (none_pending, same) ↦ rw same (b, none_pending)
    | inr (some_pending, sent, empty, zero_bytes) ↦ (
      record {
        counted = rw (empty, zero_bytes) refl;
        short = rw empty (omega arith);
        light = rw empty (omega arith);
        sent_fit = rw sent (
            All-append Fits s.sent (s.pending ∷ []) b.sent_fit
              ((some_pending, b.short, b.light), tt));
      },
      empty,
    )
  ]

  push-IsBounded :
      (r : Bytes) (s : Emitter F)
      → IsBounded s
      → length s.pending < max_records_per_batch
      → total_bytes s.pending + length r ≤ max_batch_bytes
      → IsBounded
          (record s { pending = s.pending ++ r ∷ []; pending_bytes = s.pending_bytes + length r })
  push-IsBounded r s b room space =
      let total = total_bytes-append s.pending (r ∷ []) in
      let count = length-append s.pending (r ∷ []) in
      record {
        counted = omega (arith, total, b.counted);
        short = omega (arith, count);
        light = omega (arith, total);
        sent_fit = b.sent_fit;
      }

  append-IsBounded :
      (reply : PutReply) (r : Bytes) (s : Emitter F)
      → length r ≤ max_record_bytes
      → IsBounded s
      → IsBounded (append reply r s)
  unfolding append
  append-IsBounded reply r s small b =
      elim (Bool-cases (
        leb max_records_per_batch (length s.pending)
        || ltb max_batch_bytes (s.pending_bytes + length r))) [
          | inl full ↦
              let (b', empty) = flush-IsBounded reply s b in
              rw full (
                push-IsBounded r (flush reply s) b' (rw empty (omega arith))
                  (rw empty (omega arith)))
          | inr fits ↦
              rw fits (push-IsBounded r s b (ground (arith, b.counted)) (ground (arith, b.counted)))
        ]

  handle-IsBounded :
      (wr : Writer F) (reply : PutReply) (e : Event F) (s : Emitter F)
      → IsBounded s
      → IsBounded (handle wr reply e s)
  unfolding handle
  handle-IsBounded wr reply e s b = elim (Option-cases (encode wr e)) [
    | inl bad ↦
        rw (bad, handle)
          (record { counted = b.counted; short = b.short; light = b.light; sent_fit = b.sent_fit })
    | inr (r, good) ↦ rw (good, handle) (append-IsBounded reply r s (encode-le wr e r good) b)
  ]

  emit-IsBounded : (e : Event F) (s : Emitter F) → IsBounded s → IsBounded (emit e s)
  unfolding emit
  emit-IsBounded e s b = ground arith

  Step-IsBounded :
      (wr : Writer F) {s t : Emitter F} {more : List (Event F)}
      → Step wr s more t
      → IsBounded s
      → IsBounded t
  Step-IsBounded wr {s} (offer e) b = emit-IsBounded e s b
  Step-IsBounded wr {s} (receive reply e rest m q) b =
      handle-IsBounded wr reply e (record s { events = rest })
        (record { counted = b.counted; short = b.short; light = b.light; sent_fit = b.sent_fit })
  Step-IsBounded wr {s} (tick reply m) b = (flush-IsBounded reply s b).0
  Step-IsBounded wr (close c) b = record {
    counted = b.counted;
    short = b.short;
    light = b.light;
    sent_fit = b.sent_fit;
  }
  Step-IsBounded wr (see_done m c) b = record {
    counted = b.counted;
    short = b.short;
    light = b.light;
    sent_fit = b.sent_fit;
  }
  Step-IsBounded wr {s} (finish reply m q) b =
      let b' = (flush-IsBounded reply s b).0 in
      record { counted = b'.counted; short = b'.short; light = b'.light; sent_fit = b'.sent_fit }

  new_emitter-IsBounded : (size : ℕ) → IsBounded (new_emitter {F = F} size)
  unfolding new_emitter
  new_emitter-IsBounded size = record {
    counted = refl;
    short = omega arith;
    light = omega arith;
    sent_fit = tt;
  }

  -- Whatever is emitted, in any order of events, ticks and shutdown, and whatever the service
  -- replies: every batch that is sent has 1 to 500 records and 4 MiB at most, and the batch that is
  -- pending keeps its byte count and stays within both limits.
  pub Reach-IsBounded :
      (wr : Writer F) (size : ℕ) {s : Emitter F} {accepted : List (Event F)}
      → Reach wr (new_emitter size) accepted s
      → IsBounded s
  Reach-IsBounded wr size here = new_emitter-IsBounded size
  Reach-IsBounded wr size (next r st) = Step-IsBounded wr st (Reach-IsBounded wr size r)
