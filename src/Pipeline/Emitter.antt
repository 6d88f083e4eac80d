-- ===== src/Pipeline/Emitter.antt =====
-- The emitter that the handlers hold, of app/internal/pipeline/pipeline.go: Firehose, or Disabled,
-- which takes everything and does nothing; and its end when the server shuts down.
use maroon_ledger.Base.{ℕ, Bool, true, false, Option, none, some, if◌then◌else◌}
use maroon_ledger.Go.Bytes.{Bytes, bytes}
use maroon_ledger.Pipeline.Event.{Event}
use maroon_ledger.Pipeline.Firehose.{Emitter, emit, stopped, Mode, serving, draining}

pub data AnyEmitter (F : Type 0) : Type 0 where
  disabled : AnyEmitter F
  firehose : Emitter F → AnyEmitter F

abbrev has_stopped : Mode → Bool
has_stopped serving = false
has_stopped draining = false
has_stopped stopped = true

-- What Close logs when the worker has returned in time.
pub record CloseLog : Type 0 where
  pub delivered : ℕ
  pub failed : ℕ
  pub dropped : ℕ

module _ {F : Type 0} where
  -- Name
  unfoldable pub emitter_name : AnyEmitter F → Bytes
  emitter_name disabled = bytes "disabled"
  emitter_name (firehose s) = bytes "firehose"

  -- Emit
  unfoldable pub emit_to : Event F → AnyEmitter F → AnyEmitter F
  emit_to e disabled = disabled
  emit_to e (firehose s) = firehose (emit e s)

  -- Close begins: the channel `done` is closed, and the worker will see it.
  unfoldable pub begin_close : AnyEmitter F → AnyEmitter F
  begin_close disabled = disabled
  begin_close (firehose s) = firehose (record s { closed = true })

  -- Close ends, at the worker's return or at the deadline: `none` is the context's error.
  unfoldable pub end_close : AnyEmitter F → Option (Option CloseLog)
  end_close disabled = some none
  end_close (firehose s) =
      if has_stopped s.mode
      then some (some (record { delivered = s.delivered; failed = s.failed; dropped = s.dropped }))
      else none
