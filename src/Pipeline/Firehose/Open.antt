-- ===== src/Pipeline/Firehose/Open.antt =====
-- NewFirehose of app/internal/pipeline/firehose.go.
use maroon_ledger.Base.{ℕ, Bool, Option, none, some, ◌==◌, if◌then◌else◌}
use maroon_ledger.Base.Int.{ℤ, pos_part}
use maroon_ledger.Go.Bytes.{Bytes, is_empty}
use maroon_ledger.Pipeline.Firehose.{Emitter, new_emitter}

-- FirehoseConfig; the interval is in nanoseconds.
pub record FirehoseConfig : Type 0 where
  pub stream_name : Bytes
  pub region : Bytes
  pub buffer_size : ℤ
  pub flush_interval : ℤ

abbrev pub default_flush_every : ℕ
default_flush_every = 5000000000

-- An emitter with its stream and the period of its ticker.
pub record Opened (F : Type 0) : Type 0 where
  pub stream : Bytes
  pub flush_every : ℕ
  pub emitter : Emitter F

-- Whether the AWS configuration of a region loads is an argument. A size or an interval that is
-- not positive counts as 0, which is none given.
unfoldable pub new_firehose : {F : Type 0} → (Bytes → Bool) → FirehoseConfig → Option (Opened F)
new_firehose aws_loads cfg =
    let interval = pos_part cfg.flush_interval in
    if is_empty cfg.stream_name
    then none
    else if is_empty cfg.region
    then none
    else if aws_loads cfg.region
    then some (record {
      stream = cfg.stream_name;
      flush_every = (if interval == 0 then default_flush_every else interval);
      emitter = new_emitter (pos_part cfg.buffer_size);
    })
    else none
