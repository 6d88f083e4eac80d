-- ===== src/Pipeline/Firehose/Steps.antt =====
-- The emitter as a step relation. A select takes any case that is ready, and handlers emit at any
-- time, so each is a step of its own. A run carries the events that the queue has accepted.
use maroon_ledger.Base.{◌≡◌, ◌≢◌, true, false, List, [], ◌∷◌, ◌++◌, ltb, if◌then◌else◌, length}
use maroon_ledger.Pipeline.Event.{Event}
use maroon_ledger.Pipeline.Encode.{Writer}
use maroon_ledger.Pipeline.Firehose.{
  Emitter, serving, draining, stopped, PutReply, emit, flush, handle,
}

-- The worker has taken the first event of the queue.
abbrev pub take_event :
    {F : Type 0} → Writer F → PutReply → Event F → List (Event F) → Emitter F → Emitter F
take_event wr reply e rest s = handle wr reply e (record s { events = rest })

-- The events that were accepted at a step, none or one.
abbrev pub accepted_by : {F : Type 0} → Event F → Emitter F → List (Event F)
accepted_by e s = if ltb (length s.events) s.capacity then e ∷ [] else []

module _ {F : Type 0} (wr : Writer F) where
  pub data Step (s : Emitter F) : List (Event F) → Emitter F → Type 0 where
    -- Emit
    offer : (e : Event F) → Step s (accepted_by e s) (emit e s)
    -- case event := <-e.events, in the select or in the loop that drains
    receive :
        (reply : PutReply) (e : Event F) (rest : List (Event F))
        → s.mode ≢ stopped
        → s.events ≡ e ∷ rest
        → Step s [] (take_event wr reply e rest s)
    -- case <-ticker.C
    tick : (reply : PutReply) → s.mode ≡ serving → Step s [] (flush reply s)
    -- Close, which must not be called twice
    close : s.closed ≡ false → Step s [] (record s { closed = true })
    -- case <-e.done
    see_done : s.mode ≡ serving → s.closed ≡ true → Step s [] (record s { mode = draining })
    -- default: flush and return
    finish :
        (reply : PutReply)
        → s.mode ≡ draining
        → s.events ≡ []
        → Step s [] (record (flush reply s) { mode = stopped })

  -- The states reached from `start`, with the events accepted on the way.
  pub data Reach (start : Emitter F) : List (Event F) → Emitter F → Type 0 where
    here : Reach start [] start
    next :
        {s t : Emitter F} {accepted more : List (Event F)}
        → Reach start accepted s
        → Step s more t
        → Reach start (accepted ++ more) t
