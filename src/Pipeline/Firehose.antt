-- ===== src/Pipeline/Firehose.antt =====
-- FirehoseEmitter of app/internal/pipeline/firehose.go: the bounded queue in front of the worker,
-- the worker's batch, and its counters. The service's reply to a PutRecordBatch is an argument.
pub mod Steps
pub mod Batches
pub mod Order
pub mod Accounting
pub mod Drain
pub mod Open
use maroon_ledger.Base.{
  ℕ, zero, suc, ◌+◌, ◌-◌, ◌*◌, ◌/◌, ◌%◌, ◌^◌, ◌≤◌, ◌<◌, String, ◌≡◌, refl, sym, ap, ◌∙◌, ◌≢◌, ◌↔◌,
  ◌⊎◌, inl, inr, Bool, true, false, not, ◌&&◌, ◌||◌, Option, none, some, List, [], ◌∷◌, ◌++◌, map,
  append-nil, append_assoc, arith, ltb, leb, ◌==◌, if◌then◌else◌, Bool-cases, Option-cases, is_some,
  length,
}
use maroon_ledger.Go.Bytes.{Bytes}
use maroon_ledger.Pipeline.Event.{Event}
use maroon_ledger.Pipeline.Encode.{Writer, encode}

abbrev pub max_records_per_batch : ℕ
max_records_per_batch = 500

abbrev pub max_batch_bytes : ℕ
max_batch_bytes = 4 * 2 ^ 20

abbrev pub default_buffer_size : ℕ
default_buffer_size = 2048

abbrev pub u64 : ℕ → ℕ
u64 n = n % 2 ^ 64

-- Where the worker's goroutine stands: in the select, in the loop that drains, or returned.
pub data Mode : Type 0 where
  serving draining stopped : Mode

-- `sent` holds the batches handed to PutRecordBatch, in order; `closed` is the channel `done`.
pub record Emitter (F : Type 0) : Type 0 where
  pub capacity : ℕ
  pub events : List (Event F)
  pub closed : Bool
  pub mode : Mode
  pub pending : List Bytes
  pub pending_bytes : ℕ
  pub sent : List (List Bytes)
  pub dropped : ℕ
  pub delivered : ℕ
  pub failed : ℕ

-- The reply: an error, or FailedPutCount, which may be absent.
pub data PutReply : Type 0 where
  put_error : PutReply
  put_ok : Option ℕ → PutReply

-- NewFirehose, as to the emitter that it builds.
unfoldable pub new_emitter : {F : Type 0} → ℕ → Emitter F
new_emitter buffer_size = record {
  capacity = (if buffer_size == 0 then default_buffer_size else buffer_size);
  events = [];
  closed = false;
  mode = serving;
  pending = [];
  pending_bytes = 0;
  sent = [];
  dropped = 0;
  delivered = 0;
  failed = 0;
}

abbrev pub failed_count : Option ℕ → ℕ
failed_count none = 0
failed_count (some n) = n

module _ {F : Type 0} where
  -- Emit: a non-blocking send.
  unfoldable pub emit : Event F → Emitter F → Emitter F
  emit e s =
      if ltb (length s.events) s.capacity
      then record s { events = s.events ++ e ∷ [] }
      else record s { dropped = u64 (s.dropped + 1) }

  -- deliver
  unfoldable pub deliver : PutReply → List Bytes → Emitter F → Emitter F
  deliver put_error records s = record s {
    sent = s.sent ++ records ∷ [];
    failed = u64 (s.failed + length records);
  }
  deliver (put_ok count) records s =
      let rejected = failed_count count in
      record s {
        sent = s.sent ++ records ∷ [];
        failed = u64 (s.failed + rejected);
        delivered = u64 (s.delivered + u64 (length records + 2 ^ 64 - u64 rejected));
      }

  abbrev reset : Emitter F → Emitter F
  reset s = record s { pending = []; pending_bytes = 0 }

  -- The closure `flush` of run.
  unfoldable pub flush : PutReply → Emitter F → Emitter F
  flush reply s = elim s.pending [ [] ↦ s | r ∷ rs ↦ reset (deliver reply s.pending s) ]

  abbrev push : Bytes → Emitter F → Emitter F
  push r s = record s { pending = s.pending ++ r ∷ []; pending_bytes = s.pending_bytes + length r }

  -- A record joins the batch, which goes out first if it would breach a limit.
  unfoldable pub append : PutReply → Bytes → Emitter F → Emitter F
  append reply r s =
      if leb max_records_per_batch (length s.pending)
        || ltb max_batch_bytes (s.pending_bytes + length r)
      then push r (flush reply s)
      else push r s

  -- The case of an event received: what cannot be encoded is counted as dropped.
  unfoldable pub handle : Writer F → PutReply → Event F → Emitter F → Emitter F
  handle wr reply e s = elim (encode wr e) [
    | none ↦ record s { dropped = u64 (s.dropped + 1) }
    | some r ↦ append reply r s
  ]
