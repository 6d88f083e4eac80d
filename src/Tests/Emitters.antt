-- ===== src/Tests/Emitters.antt =====
-- The emitter at concrete runs.
use maroon_ledger.Base.{
  ◌+◌, ◌≤◌, ◌⊎◌, true, length, ◌%◌, ◌^◌, ◌≡◌, refl, ◌≢◌, none, some, [], ◌∷◌, ◌++◌, arith,
}
use maroon_ledger.Go.Bytes.{bytes, concat, join, is_empty}
use maroon_ledger.Go.Strconv.{itoa_nat}
use maroon_ledger.Pipeline.Event.{Event}
use maroon_ledger.Pipeline.Encode.{Writer, encode, marshal, members}
use maroon_ledger.Pipeline.Firehose.{
  Emitter, put_ok, new_emitter, emit, flush, handle, append, stopped, serving, draining, PutReply,
}
use maroon_ledger.Pipeline.Firehose.Steps.{
  Step, Reach, here, next, offer, receive, tick, accepted_by, take_event, close,
}
use maroon_ledger.Pipeline.Firehose.Batches.{IsBounded, Reach-IsBounded}
use maroon_ledger.Pipeline.Firehose.Order.{records_of, joined, delivery_exact}
use maroon_ledger.Pipeline.Firehose.Drain.{
  IsDrained, worker_step, worker_steps, shutdown_delivers, drain_terminates,
}
use maroon_ledger.Pipeline.Firehose.Accounting.{tally, offers, offers_accounted}
use maroon_ledger.Tests.Fixtures.{Money, minus_dollars}

abbrev writer : Writer Money
writer = record { number = λ x. some (bytes "0"); text = λ s. s; time = λ t. some (bytes "0") }

abbrev lunch_event : Event Money
lunch_event = record {
  id = 1;
  timestamp = 5;
  amount = minus_dollars 12;
  category = bytes "dining";
  ai_provider = [];
  anomaly_severity = [];
}

abbrev start : Emitter Money
start = new_emitter 2

abbrev offered : Emitter Money
offered = emit lunch_event start

abbrev received : Emitter Money
received = take_event writer (put_ok none) lunch_event [] offered

abbrev all_sent : Emitter Money
all_sent = flush (put_ok none) received

accepts : accepted_by lunch_event start ≡ lunch_event ∷ []
unfolding new_emitter
accepts = refl

received_serving : received.mode ≡ serving
unfolding new_emitter emit handle encode marshal concat bytes join members itoa_nat is_empty append
received_serving = refl

serving_runs : serving ≢ stopped
serving_runs h = cc

-- One event offered, received and sent at the next tick.
abbrev one_event : Reach writer start (([] ++ accepted_by lunch_event start) ++ [] ++ []) all_sent
unfolding new_emitter emit
one_event =
    next
      (next (next here (offer lunch_event))
        (receive (put_ok none) lunch_event [] serving_runs refl))
      (tick (put_ok none) received_serving)

Reach-IsBounded_example : IsBounded all_sent
Reach-IsBounded_example = Reach-IsBounded writer 2 one_event

delivery_exact_example :
    (records_of writer (([] ++ accepted_by lunch_event start) ++ [] ++ [])
      ≡ (joined all_sent.sent ++ all_sent.pending) ++ records_of writer all_sent.events)
    × (all_sent.mode ≡ stopped
        → records_of writer (([] ++ accepted_by lunch_event start) ++ [] ++ [])
          ≡ joined all_sent.sent ++ records_of writer all_sent.events)
delivery_exact_example = delivery_exact writer 2 one_event

offers_accounted_example : tally all_sent % 2 ^ 64 ≡ offers one_event % 2 ^ 64
unfolding one_event
offers_accounted_example =
    offers_accounted writer 2 one_event (((tt, tt), omega arith), omega arith)

-- One event queued when Close is called.
abbrev closing : Emitter Money
closing = record offered { closed = true }

abbrev closed_run : Reach writer start (([] ++ accepted_by lunch_event start) ++ []) closing
unfolding new_emitter emit
closed_run = next (next here (offer lunch_event)) (close refl)

closing_runs : closing.mode ≢ stopped
unfolding new_emitter emit
closing_runs h = cc

closing_closed : closing.closed ≡ true
closing_closed = refl

shutdown_delivers_example :
    (t : Emitter Money) × (IsDrained writer closing [] t
      × (joined t.sent ≡ records_of writer (([] ++ accepted_by lunch_event start) ++ [])))
shutdown_delivers_example =
    shutdown_delivers writer 2 (λ s. put_ok none) closed_run closing_closed closing_runs

-- The same worker when it drains.
abbrev drains : Emitter Money
drains = record offered { mode = draining }

abbrev drained : Emitter Money
drained = take_event writer (put_ok none) lunch_event [] drains

draining_runs : draining ≢ stopped
draining_runs h = cc

abbrev drain_run : Reach writer drains ([] ++ []) drained
unfolding new_emitter emit
drain_run = next here (receive (put_ok none) lunch_event [] draining_runs refl)

drain_terminates_example :
    (worker_steps drain_run ≤ length drains.events + length {A = Event Money} ([] ++ []) + 1)
    × (worker_steps drain_run ≡ length drains.events + length {A = Event Money} ([] ++ []) + 1
        → (drained.mode ≡ stopped) × (length drained.events ≡ 0))
    × ((drained.mode ≡ stopped)
        ⊎ ((reply : PutReply)
            → (u : Emitter Money) × ((st : Step writer drained [] u) × (worker_step st ≡ 1))))
drain_terminates_example = drain_terminates writer drain_run refl
