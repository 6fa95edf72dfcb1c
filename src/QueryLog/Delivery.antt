-- ===== src/QueryLog/Delivery.antt =====
-- What becomes of the events that the writer takes.
use heimdallr.Common.{
  ℕ, ◌≤◌, ◌<◌, ◌≡◌, refl, sym, ◌∙◌, ap, arith, true, List, [], ◌∷◌, ◌++◌, map, max, ltb, leb,
  length, length-append, append_assoc, Bool-cases, inl, inr,
}
use mathlib.Core.List.{append-nil, map-append}
use heimdallr.QueryLog.{
  QueryEvent, QueryLogConfig, Row, Database, Writer, row_of, spawned, insert_rows, flush, push,
  receive, tick, log, capacity,
}

module _ (db : Database) (config : QueryLogConfig) where
  -- a step of the task: the branch of the event or that of the timer
  pub data Step : Writer → Writer → Type 0 where
    received : (w : Writer) → Step w (receive db config w.channel w)
    ticked : (w : Writer) → Step w (tick db config w)

  -- the writers that are reached from the start, with the events taken so far. A call of `log`
  -- that drops its event changes nothing.
  pub data Reach : List QueryEvent → Writer → Type 0 where
    start : Reach [] spawned
    logged :
        {es : List QueryEvent} {w : Writer} (e : QueryEvent)
        → Reach es w
        → (log e w).1 ≡ true
        → Reach (es ++ e ∷ []) (log e w).0
    ran : {es : List QueryEvent} {w w' : Writer} → Reach es w → Step w w' → Reach es w'

  -- the buffer is below its size, of which 0 counts as 1, and the channel within its capacity
  pub record IsBounded (w : Writer) : Type 0 where
    pub buffer : length w.buffer < max config.buffer_size 1
    pub channel : length w.channel ≤ capacity

  push-IsBounded :
      (e : QueryEvent) (w : Writer) → length w.channel ≤ capacity → IsBounded (push db config e w)
  unfolding push flush
  push-IsBounded e w h = ground arith

  Step-IsBounded : {w w' : Writer} → Step w w' → IsBounded w → IsBounded w'
  unfolding receive tick flush
  Step-IsBounded (received w) v = receive-IsBounded w w.channel v (omega arith)
    where
      receive-IsBounded :
          (w : Writer) (es : List QueryEvent)
          → IsBounded w
          → length es ≤ length w.channel
          → IsBounded (receive db config es w)
      receive-IsBounded w [] v h = v
      receive-IsBounded w (e ∷ es) v h =
          push-IsBounded e (record w { channel = es }) (omega (arith, v.channel, h))
  Step-IsBounded (ticked w) v = ground (arith, v.buffer, v.channel)

  log-IsBounded : (e : QueryEvent) (w : Writer) → IsBounded w → IsBounded (log e w).0
  unfolding log
  log-IsBounded e w v = ground (arith, v.buffer, v.channel, length-append w.channel (e ∷ []))

  Reach-IsBounded : {es : List QueryEvent} {w : Writer} → Reach es w → IsBounded w
  unfolding spawned
  Reach-IsBounded start = record { buffer = omega arith; channel = omega arith }
  Reach-IsBounded (logged e r taken) = log-IsBounded e _ (Reach-IsBounded r)
  Reach-IsBounded (ran r s) = Step-IsBounded s (Reach-IsBounded r)

  module _ (connected : (n : ℕ) → db.connects n ≡ true)
      (accepts : (r : Row) → db.takes r ≡ true) where
    -- what the table, the buffer and the channel hold, in this order
    abbrev pub held : Writer → List Row
    held w = w.table ++ (map row_of w.buffer ++ map row_of w.channel)

    insert_rows_lem :
        (es : List QueryEvent) (t : List Row) → insert_rows db config es t ≡ t ++ map row_of es
    unfolding insert_rows
    insert_rows_lem [] t = sym (append-nil t)
    insert_rows_lem (e ∷ es) t =
        rw (accepts (row_of e))
          (insert_rows_lem es (t ++ row_of e ∷ []) ∙ append_assoc t (row_of e ∷ []) (map row_of es))

    held-flush : (w : Writer) → held (flush db config w) ≡ held w
    unfolding flush
    held-flush w =
        rw (connected w.batches, insert_rows_lem w.buffer w.table)
          (append_assoc w.table (map row_of w.buffer) (map row_of w.channel))

    held-push :
        (e : QueryEvent) (w : Writer)
        → held (push db config e w)
          ≡ w.table ++ (map row_of w.buffer ++ row_of e ∷ map row_of w.channel)
    unfolding push
    held-push e w = elim (Bool-cases (leb config.buffer_size (length (w.buffer ++ e ∷ [])))) [
      | inl full ↦ rw full (held-flush (record w { buffer = w.buffer ++ e ∷ [] }) ∙ regroup)
      | inr room ↦ rw room regroup
    ]
      where
        regroup :
            w.table ++ (map row_of (w.buffer ++ e ∷ []) ++ map row_of w.channel)
            ≡ w.table ++ (map row_of w.buffer ++ row_of e ∷ map row_of w.channel)
        regroup = simp (map-append, append_assoc)

    held-receive :
        (es : List QueryEvent) (w : Writer)
        → w.channel ≡ es
        → held (receive db config es w) ≡ held w
    unfolding receive
    held-receive [] w h = refl
    held-receive (e ∷ es) w h = held-push e (record w { channel = es }) ∙ ground (arith, h)

    tick-flush :
        (e : QueryEvent) (es : List QueryEvent) (w : Writer)
        → w.buffer ≡ e ∷ es
        → tick db config w ≡ flush db config w
    unfolding tick
    tick-flush e es w h = ground (arith, h)

    held-tick :
        (es : List QueryEvent) (w : Writer) → w.buffer ≡ es → held (tick db config w) ≡ held w
    unfolding tick
    held-tick [] w h = ground (arith, h)
    held-tick (e ∷ es) w h = ap held (tick-flush e es w h) ∙ held-flush w

    held-Step : {w w' : Writer} → Step w w' → held w' ≡ held w
    held-Step (received w) = held-receive w.channel w refl
    held-Step (ticked w) = held-tick w.buffer w refl

    held-log :
        (e : QueryEvent) (w : Writer)
        → (log e w).1 ≡ true
        → held (log e w).0 ≡ held w ++ row_of e ∷ []
    unfolding log
    held-log e w h = elim (Bool-cases (ltb (length w.channel) capacity)) [
      | inl room ↦ rw room (simp (map-append, append_assoc))
      | inr full ↦ ground (arith, h, full)
    ]

    -- Whatever the order of the calls and of the branches: if the database takes every batch and
    -- every row, the table, the buffer and the channel hold the rows of all events that were
    -- taken, each once and in their order; the buffer is below its size and the channel within
    -- its capacity.
    pub Reach-held :
        {es : List QueryEvent} {w : Writer} → Reach es w → (held w ≡ map row_of es) × IsBounded w
    unfolding spawned
    Reach-held r = (holds r, Reach-IsBounded r)
      where
        holds : {es : List QueryEvent} {w : Writer} → Reach es w → held w ≡ map row_of es
        holds start = refl
        holds (logged e r taken) = held-log e _ taken ∙ simp (map-append, holds r)
        holds (ran r s) = held-Step s ∙ holds r

  -- any number of steps of the task, with no event taken between them
  pub data Runs : Writer → Writer → Type 0 where
    done : (w : Writer) → Runs w w
    step : {w w' w'' : Writer} → Step w w' → Runs w' w'' → Runs w w''

  Reach-Runs : {es : List QueryEvent} {w w' : Writer} → Reach es w → Runs w w' → Reach es w'
  Reach-Runs r (done w) = r
  Reach-Runs r (step s runs) = Reach-Runs (ran r s) runs

  -- the events of the channel one by one, and a tick
  drain : (es : List QueryEvent) (w : Writer) → Writer
  drain [] w = tick db config w
  drain (e ∷ es) w = drain es (receive db config (e ∷ es) w)

  channel-receive :
      (e : QueryEvent) (es : List QueryEvent) (w : Writer)
      → (receive db config (e ∷ es) w).channel ≡ es
  unfolding receive push flush
  channel-receive e es w = ground arith

  drain-Runs : (es : List QueryEvent) (w : Writer) → w.channel ≡ es → Runs w (drain es w)
  unfolding drain
  drain-Runs [] w h = step (ticked w) (done _)
  drain-Runs (e ∷ es) w h =
      step (rw (← h) (received w))
        (drain-Runs es (receive db config (e ∷ es) w) (channel-receive e es w))

  drain-empty :
      (es : List QueryEvent) (w : Writer)
      → w.channel ≡ es
      → ((drain es w).channel ≡ []) × ((drain es w).buffer ≡ [])
  unfolding drain tick flush
  drain-empty [] w h = tick-empty w.buffer w refl h
    where
      tick-empty :
          (b : List QueryEvent) (w : Writer)
          → w.buffer ≡ b
          → w.channel ≡ []
          → ((tick db config w).channel ≡ []) × ((tick db config w).buffer ≡ [])
      tick-empty [] w hb hc = ground (arith, hb, hc)
      tick-empty (e ∷ b) w hb hc = ground (arith, hb, hc)
  drain-empty (e ∷ es) w h = drain-empty es (receive db config (e ∷ es) w) (channel-receive e es w)

  -- From every writer that is reached, the task can run on, by steps of its own alone, to a writer
  -- whose table holds exactly the rows of all events that were taken, in their order, if the
  -- database takes every batch and every row.
  pub Reach-written :
      {es : List QueryEvent} {w : Writer}
      → ((n : ℕ) → db.connects n ≡ true)
      → ((r : Row) → db.takes r ≡ true)
      → Reach es w
      → (w' : Writer) × Runs w w' × (w'.table ≡ map row_of es)
  Reach-written {w} connected accepts r =
      let runs = drain-Runs w.channel w refl in
      let (no_channel, no_buffer) = drain-empty w.channel w refl in
      let (holds, _) = Reach-held connected accepts (Reach-Runs r runs) in
      (
        drain w.channel w,
        runs,
        ground (arith, holds, no_channel, no_buffer, append-nil (drain w.channel w).table),
      )
