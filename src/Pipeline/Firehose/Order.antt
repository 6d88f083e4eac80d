-- ===== src/Pipeline/Firehose/Order.antt =====
-- What is sent, against what was accepted: each event once, in order, and none lost on the way.
use maroon_ledger.Base.{
  ℕ, ◌+◌, ◌≡◌, refl, sym, ap, ◌∙◌, inl, inr, ◌||◌, none, some, List, [], ◌∷◌, ◌++◌, append-nil,
  append_assoc, arith, ltb, leb, Bool-cases, Option-cases, length,
}
use maroon_ledger.Go.Bytes.{Bytes}
use maroon_ledger.Pipeline.Event.{Event}
use maroon_ledger.Pipeline.Encode.{Writer, encode}
use maroon_ledger.Pipeline.Firehose.{
  Emitter, stopped, PutReply, emit, deliver, flush, append, handle, new_emitter,
  max_records_per_batch, max_batch_bytes,
}
use maroon_ledger.Pipeline.Firehose.Batches.{flush-sent}
use maroon_ledger.Pipeline.Firehose.Steps.{
  Step, offer, receive, tick, close, see_done, finish, Reach, here, next, accepted_by,
}

-- The records of a batch after another.
abbrev pub joined : List (List Bytes) → List Bytes
joined [] = []
joined (b ∷ bs) = b ++ joined bs

-- The records of the events that can be encoded.
abbrev pub records_of : {F : Type 0} → Writer F → List (Event F) → List Bytes
records_of wr [] = []
records_of wr (e ∷ es) = elim (encode wr e) [
  | none ↦ records_of wr es
  | some r ↦ r ∷ records_of wr es
]

joined-append : (bs : List (List Bytes)) (b : List Bytes) → joined (bs ++ b ∷ []) ≡ joined bs ++ b
joined-append [] b = append-nil b
joined-append (c ∷ bs) b = rw (joined-append bs b) (sym (append_assoc c (joined bs) b))

module _ {F : Type 0} (wr : Writer F) where
  records_of-append :
      (xs ys : List (Event F)) → records_of wr (xs ++ ys) ≡ records_of wr xs ++ records_of wr ys
  records_of-append [] ys = refl
  records_of-append (x ∷ xs) ys = elim (Option-cases (encode wr x)) [
    | inl bad ↦ ground (arith, records_of-append xs ys)
    | inr (r, good) ↦ ground (arith, records_of-append xs ys)
  ]

  -- All that the worker has encoded so far.
  abbrev stream : Emitter F → List Bytes
  stream s = joined s.sent ++ s.pending

  flush-stream : (reply : PutReply) (s : Emitter F) → stream (flush reply s) ≡ stream s
  flush-stream reply s = elim (flush-sent reply s) [
    | inl (none_pending, same) ↦ rw same refl
    | inr (some_pending, sent, empty, zero_bytes) ↦
        rw (sent, empty, append-nil) (joined-append s.sent s.pending)
  ]

  append-stream :
      (reply : PutReply) (r : Bytes) (s : Emitter F)
      → stream (append reply r s) ≡ stream s ++ r ∷ []
  unfolding append
  append-stream reply r s =
      elim (Bool-cases (
        leb max_records_per_batch (length s.pending)
        || ltb max_batch_bytes (s.pending_bytes + length r))) [
          | inl full ↦ rw full (
              rw (← flush-stream reply s)
                (sym (append_assoc (joined (flush reply s).sent) (flush reply s).pending (r ∷ []))))
          | inr fits ↦ rw fits (sym (append_assoc (joined s.sent) s.pending (r ∷ [])))
        ]

  handle-stream :
      (reply : PutReply) (e : Event F) (s : Emitter F)
      → stream (handle wr reply e s) ≡ stream s ++ records_of wr (e ∷ [])
  unfolding handle
  handle-stream reply e s = elim (Option-cases (encode wr e)) [
    | inl bad ↦ ground (arith, append-nil (stream s))
    | inr (r, good) ↦ ground (arith, append-stream reply r s)
  ]

  pub flush_keeps :
      (reply : PutReply) (s : Emitter F)
      → ((flush reply s).events ≡ s.events) × ((flush reply s).mode ≡ s.mode)
  unfolding flush deliver
  flush_keeps reply s = ground arith

  append_keeps :
      (reply : PutReply) (r : Bytes) (s : Emitter F)
      → ((append reply r s).events ≡ s.events) × ((append reply r s).mode ≡ s.mode)
  unfolding append
  append_keeps reply r s = ground (arith, flush_keeps reply s)

  pub handle_keeps :
      (reply : PutReply) (e : Event F) (s : Emitter F)
      → ((handle wr reply e s).events ≡ s.events) × ((handle wr reply e s).mode ≡ s.mode)
  unfolding handle
  handle_keeps reply e s = elim (Option-cases (encode wr e)) [
    | inl bad ↦ ground arith
    | inr (r, good) ↦ ground (arith, append_keeps reply r s)
  ]

  emit-accepted :
      (e : Event F) (s : Emitter F)
      → ((emit e s).events ≡ s.events ++ accepted_by e s)
        × (stream (emit e s) ≡ stream s)
        × ((emit e s).mode ≡ s.mode)
        × ((emit e s).pending ≡ s.pending)
  unfolding emit
  emit-accepted e s = ground (arith, append-nil s.events)

  -- The records of what was accepted are those sent, those pending and those still queued; and a
  -- worker that has returned has nothing pending.
  pub record IsExact (accepted : List (Event F)) (s : Emitter F) : Type 0 where
    pub exact : records_of wr accepted ≡ stream s ++ records_of wr s.events
    pub flushed : s.mode ≡ stopped → s.pending ≡ []

  flush_empties : (reply : PutReply) (s : Emitter F) → (flush reply s).pending ≡ []
  flush_empties reply s = elim (flush-sent reply s) [
    | inl (none_pending, same) ↦ rw same none_pending
    | inr (some_pending, sent, empty, zero_bytes) ↦ empty
  ]

  -- One more encoded event behind the stream is one less before the queue.
  shift :
      (e : Event F) (rest : List (Event F)) (before : List Bytes)
      → (before ++ records_of wr (e ∷ [])) ++ records_of wr rest
        ≡ before ++ records_of wr (e ∷ rest)
  shift e rest before =
      append_assoc before (records_of wr (e ∷ [])) (records_of wr rest)
      ∙ ap (λ (l : List Bytes). before ++ l) (sym (records_of-append (e ∷ []) rest))

  Step-IsExact :
      {s t : Emitter F} {accepted more : List (Event F)}
      → Step wr s more t
      → IsExact accepted s
      → IsExact (accepted ++ more) t
  Step-IsExact {s} {accepted} (offer e) x =
      let (queued, same_stream, same_mode, same_pending) = emit-accepted e s in
      record {
        exact =
            records_of-append accepted (accepted_by e s)
            ∙ rw
                (
                  x.exact,
                  same_stream,
                  queued,
                  records_of-append s.events (accepted_by e s),
                  append_assoc,
                )
                refl;
        flushed = λ m. same_pending ∙ x.flushed (sym same_mode ∙ m);
      }
  Step-IsExact {s} {accepted} (receive reply e rest m q) x =
      let s' : Emitter F = record s { events = rest } in
      let (same_events, same_mode) = handle_keeps reply e s' in
      record {
        exact =
            rw (append-nil accepted, x.exact, q, handle-stream reply e s', same_events)
              (sym (shift e rest (stream s)));
        flushed = λ stops. absurd (m (sym same_mode ∙ stops));
      }
  Step-IsExact {s} {accepted} (tick reply m) x =
      let (same_events, same_mode) = flush_keeps reply s in
      record {
        exact = rw (append-nil accepted, x.exact, flush-stream reply s, same_events) refl;
        flushed = λ stops. cc (m, same_mode, stops);
      }
  Step-IsExact {s} {accepted} (close c) x = record {
    exact = rw (append-nil accepted) x.exact;
    flushed = x.flushed;
  }
  Step-IsExact {s} {accepted} (see_done m c) x = record {
    exact = rw (append-nil accepted) x.exact;
    flushed = λ stops. cc (stops);
  }
  Step-IsExact {s} {accepted} (finish reply m q) x =
      let (same_events, same_mode) = flush_keeps reply s in
      record {
        exact = rw (append-nil accepted, x.exact, flush-stream reply s, same_events) refl;
        flushed = λ stops. flush_empties reply s;
      }

  Reach-IsExact :
      (size : ℕ) {s : Emitter F} {accepted : List (Event F)}
      → Reach wr (new_emitter size) accepted s
      → IsExact accepted s
  unfolding new_emitter
  Reach-IsExact size here = record { exact = refl; flushed = λ stops. refl }
  Reach-IsExact size (next r st) = Step-IsExact st (Reach-IsExact size r)

  -- In every run the records sent, pending and still queued are together those of the accepted
  -- events that can be encoded: each once, in the order of acceptance. Once the worker has returned
  -- nothing is pending, so all but the queue has been sent.
  pub delivery_exact :
      (size : ℕ) {s : Emitter F} {accepted : List (Event F)}
      → Reach wr (new_emitter size) accepted s
      → (records_of wr accepted ≡ (joined s.sent ++ s.pending) ++ records_of wr s.events)
        × (s.mode ≡ stopped → records_of wr accepted ≡ joined s.sent ++ records_of wr s.events)
  delivery_exact size {s} r =
      let x = Reach-IsExact size r in
      (x.exact, λ stops. x.exact ∙ rw (x.flushed stops, append-nil) refl)
