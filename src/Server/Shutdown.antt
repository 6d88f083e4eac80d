-- ===== src/Server/Shutdown.antt =====
-- The end of main in app/cmd/server/main.go: the server stops accepting requests, and only then the
-- emitter is closed, so that nothing produces events any more.
use maroon_ledger.Base.{Bool, Option, if◌then◌else◌}
use maroon_ledger.Pipeline.Emitter.{AnyEmitter, CloseLog, begin_close, end_close}

-- Forced by log.Fatalf, or an exit, with what Close has returned: its error is only logged.
pub data Exit : Type 0 where
  forced : Exit
  exited : Option (Option CloseLog) → Exit

-- Whether server.Shutdown ended in time, and what the worker does up to the deadline, are arguments.
unfoldable pub shutdown :
    {F : Type 0} → Bool → (AnyEmitter F → AnyEmitter F) → AnyEmitter F → Exit × AnyEmitter F
shutdown in_time worker e =
    let e' = worker (begin_close e) in if in_time then (exited (end_close e'), e') else (forced, e)
