-- ===== src/Pipeline/Firehose/Drain.antt =====
-- Shutdown of the emitter: what the worker does once Close has been called.
use mathlib.Core.Path.{subst}
use maroon_ledger.Base.{
  ℕ, ◌+◌, ◌≤◌, ◌≡◌, refl, sym, ap, ◌∙◌, ◌≢◌, ◌⊎◌, inl, inr, true, List, [], ◌∷◌, ◌++◌, append-nil,
  append_assoc, arith, length, length-append,
}
use maroon_ledger.Pipeline.Event.{Event}
use maroon_ledger.Pipeline.Encode.{Writer}
use maroon_ledger.Pipeline.Firehose.{
  Emitter, Mode, serving, draining, stopped, PutReply, emit, flush, new_emitter,
}
use maroon_ledger.Pipeline.Firehose.Steps.{
  Step, offer, receive, tick, close, see_done, finish, Reach, here, next, take_event,
}
use maroon_ledger.Pipeline.Firehose.Order.{
  joined, records_of, flush_keeps, handle_keeps, delivery_exact,
}

-- The worker's own step counts one; Emit and Close are steps of others.
abbrev pub worker_step :
    {F : Type 0} {wr : Writer F} {s t : Emitter F} {more : List (Event F)} → Step wr s more t → ℕ
worker_step (offer e) = 0
worker_step (receive reply e rest m q) = 1
worker_step (tick reply m) = 1
worker_step (close c) = 0
worker_step (see_done m c) = 1
worker_step (finish reply m q) = 1

abbrev pub worker_steps :
    {F : Type 0} {wr : Writer F} {start s : Emitter F} {accepted : List (Event F)}
    → Reach wr start accepted s
    → ℕ
worker_steps here = 0
worker_steps (next r st) = worker_steps r + worker_step st

-- The step that a draining worker has yet to make behind the queue: its last.
abbrev pub last_step : Mode → ℕ
last_step serving = 0
last_step draining = 1
last_step stopped = 0

module _ {F : Type 0} (wr : Writer F) where
  -- One step of a run that started while draining: the worker's step takes one off what is left.
  Step-drains :
      {s t : Emitter F} {more : List (Event F)} (st : Step wr s more t)
      → s.mode ≢ serving
      → (t.mode ≢ serving)
        × (worker_step st + length t.events + last_step t.mode
            ≡ length s.events + length more + last_step s.mode)
  unfolding emit
  Step-drains {s} (offer e) h = ground (arith, length-append s.events (e ∷ []))
  Step-drains {s} (receive reply e rest m q) h =
      let (same_events, same_mode) = handle_keeps wr reply e (record s { events = rest }) in
      (
        λ serves. h (sym same_mode ∙ serves),
        rw (same_events, same_mode) (omega (arith, ap length q)),
      )
  Step-drains (tick reply m) h = absurd (h m)
  Step-drains {s} (close c) h = (h, omega arith)
  Step-drains (see_done m c) h = absurd (h m)
  Step-drains {s} (finish reply m q) h =
      let (same_events, same_mode) = flush_keeps wr reply s in
      (λ serves. cc (serves), rw (same_events, m, q) refl)

  Reach-drains :
      {s t : Emitter F} {accepted : List (Event F)} (r : Reach wr s accepted t)
      → s.mode ≢ serving
      → (t.mode ≢ serving)
        × (worker_steps r + length t.events + last_step t.mode
            ≡ length s.events + length accepted + last_step s.mode)
  Reach-drains here h = (h, omega arith)
  Reach-drains {s} {t} (next {accepted} {more} r st) h =
      let (m, sofar) = Reach-drains r h in
      let (m', now) = Step-drains st m in
      (m', omega (arith, sofar, now, length-append accepted more))

  -- A run that is silent: nothing was accepted at its last step.
  silently :
      {start s t : Emitter F} {accepted : List (Event F)}
      → Reach wr start accepted s
      → Step wr s [] t
      → Reach wr start accepted t
  silently {start} {t} {accepted} r st =
      subst (λ (l : List (Event F)). Reach wr start l t) (append-nil accepted) (next r st)

  -- Where a run may go on to: the worker has returned behind an empty queue, and nothing was
  -- accepted on the way.
  pub record IsDrained (start : Emitter F) (accepted : List (Event F)) (t : Emitter F)
      : Type 0 where
    pub run : Reach wr start accepted t
    pub returned : t.mode ≡ stopped
    pub emptied : t.events ≡ []

  drain :
      (reply : Emitter F → PutReply) (queue : List (Event F)) {start s : Emitter F}
      {accepted : List (Event F)}
      → Reach wr start accepted s
      → s.mode ≡ draining
      → s.events ≡ queue
      → (t : Emitter F) × IsDrained start accepted t
  drain reply [] {s} r m q =
      let (same_events, same_mode) = flush_keeps wr (reply s) s in
      (
        record (flush (reply s) s) { mode = stopped },
        record {
          run = silently r (finish (reply s) m q);
          returned = refl;
          emptied = same_events ∙ q;
        },
      )
  drain reply (e ∷ rest) {s} r m q =
      let (same_events, same_mode) = handle_keeps wr (reply s) e (record s { events = rest }) in
      drain reply rest (silently r (receive (reply s) e rest (λ stops. cc (m, stops)) q))
        (same_mode ∙ m) same_events

  wind_down :
      (reply : Emitter F → PutReply) (mode : Mode) {start s : Emitter F} {accepted : List (Event F)}
      → Reach wr start accepted s
      → s.mode ≡ mode
      → mode ≢ stopped
      → s.closed ≡ true
      → (t : Emitter F) × IsDrained start accepted t
  wind_down reply serving {s} r m running closed =
      drain reply s.events (silently r (see_done m closed)) refl refl
  wind_down reply draining {s} r m running closed = drain reply s.events r m refl
  wind_down reply stopped r m running closed = absurd (running refl)

  Reach_onward :
      {start s t : Emitter F} {accepted more : List (Event F)}
      → Reach wr start accepted s
      → Reach wr s more t
      → Reach wr start (accepted ++ more) t
  Reach_onward {start} {s} {accepted} r here =
      subst (λ (l : List (Event F)). Reach wr start l s) (sym (append-nil accepted)) r
  Reach_onward {start} {accepted} r (next {s = u} {t} {accepted = sofar} {more} onward st) =
      subst (λ (l : List (Event F)). Reach wr start l t) (append_assoc accepted sofar more)
        (next (Reach_onward r onward) st)

  -- Graceful shutdown loses nothing that was accepted: from every state that a run of a new emitter
  -- reaches with Close called and the worker not yet returned, and whatever the service replies,
  -- steps that accept nothing more lead to a state in which the worker has returned, the queue is
  -- empty, and the records sent are those of all the events accepted that can be encoded, each once
  -- and in order.
  pub shutdown_delivers :
      (size : ℕ) (reply : Emitter F → PutReply) {s : Emitter F} {accepted : List (Event F)}
      → Reach wr (new_emitter size) accepted s
      → s.closed ≡ true
      → s.mode ≢ stopped
      → (t : Emitter F) × (IsDrained s [] t × (joined t.sent ≡ records_of wr accepted))
  shutdown_delivers size reply {s} {accepted} r closed running =
      let (t, d) = wind_down reply s.mode here refl running closed in
      let all = (delivery_exact wr size (Reach_onward r d.run)).1 d.returned in
      (
        t,
        (
          d,
          sym (
              ap (records_of wr) (sym (append-nil accepted))
              ∙ all
              ∙ rw (d.emptied, append-nil) refl),
        ),
      )

  -- While draining the worker can always take a step, whatever the service replies.
  can_step :
      (reply : PutReply) (queue : List (Event F)) {t : Emitter F}
      → t.mode ≡ draining
      → t.events ≡ queue
      → (u : Emitter F) × ((st : Step wr t [] u) × (worker_step st ≡ 1))
  can_step reply [] {t} m q = (record (flush reply t) { mode = stopped }, (finish reply m q, refl))
  can_step reply (e ∷ rest) {t} m q =
      (take_event wr reply e rest t, (receive reply e rest (λ stops. cc (m, stops)) q, refl))

  mode_cases : (m : Mode) → m ≢ serving → (m ≡ stopped) ⊎ (m ≡ draining)
  mode_cases serving h = absurd (h refl)
  mode_cases draining h = inr refl
  mode_cases stopped h = inl refl

  -- The loop that drains ends. In every run from a draining state, with events offered in between in
  -- any way, the worker takes at most one step for each event that was queued or has been accepted
  -- since, and one more; after that many it has returned and the queue is empty, and before it has
  -- returned there is a step that it can take, whatever the service replies.
  pub drain_terminates :
      {s t : Emitter F} {accepted : List (Event F)} (r : Reach wr s accepted t)
      → s.mode ≡ draining
      → (worker_steps r ≤ length s.events + length accepted + 1)
        × (worker_steps r ≡ length s.events + length accepted + 1
            → (t.mode ≡ stopped) × (length t.events ≡ 0))
        × ((t.mode ≡ stopped)
            ⊎ ((reply : PutReply)
                → (u : Emitter F) × ((st : Step wr t [] u) × (worker_step st ≡ 1))))
  drain_terminates {s} {t} r m =
      let (running, left) = Reach-drains r (λ serves. cc (m, serves)) in
      let bound = rw m at left in
      let cases = mode_cases t.mode running in
      (
        omega (arith, bound),
        λ all. elim cases [
          | inl stops ↦ (stops, omega (arith, bound))
          | inr drains ↦ absurd (let b = rw drains at bound in omega (arith, b))
        ],
        elim cases [
          | inl stops ↦ inl stops
          | inr drains ↦ inr (λ reply. can_step reply t.events drains refl)
        ],
      )
