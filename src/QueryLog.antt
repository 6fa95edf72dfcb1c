-- ===== src/QueryLog.antt =====
-- src/core/log/query_log.rs: the writer of the query log. Its task takes events from a bounded
-- channel into a buffer and writes the buffer to a database when it is full or at a tick of a
-- timer; the task is a step relation over the writer's state. The branch that would end its loop
-- needs every other branch to be closed, and the timer never is, so the loop does not end. The
-- database is a parameter: whether the n-th batch finds a connection, and whether it takes a row.
pub mod Delivery
use heimdallr.Common.{
  ℕ, suc, ◌+◌, ◌-◌, ◌%◌, ◌≤◌, ◌<◌, ◌≡◌, ◌≢◌, Bool, true, false, List, [], ◌∷◌, ◌++◌, Option, none,
  some, ltb, leb, if◌then◌else◌, length,
}
use heimdallr.Common.Text.{Text, codes, trim_end_matches}

pub record QueryEvent : Type 0 where
  pub ts : ℕ
  pub qname : Text
  pub qtype : ℕ
  pub client : Text
  pub rcode : ℕ
  pub answers : ℕ
  pub latency_ms : ℕ
  pub from_cache : Bool
  pub blocked : Bool

pub record QueryLogConfig : Type 0 where
  pub postgres_url : Option Text
  pub table : Text
  pub buffer_size : ℕ
  pub flush_interval_ms : ℕ

-- `QueryLogConfig::default_url`
abbrev pub default_url : Text
default_url = codes "postgresql://postgres@localhost:5432/dnsquerylogs"

-- the capacity of the channel
abbrev pub capacity : ℕ
capacity = 1024

-- `as i32` of an unsigned number: a sign, and a magnitude
unfoldable pub as_i32 : ℕ → Bool × ℕ
as_i32 n = let w = n % 4294967296 in if ltb w 2147483648 then (false, w) else (true, 4294967296 - w)

-- what is written for an event. The codes fit in the signed types that they are converted to.
pub record Row : Type 0 where
  pub qname : Text
  pub qtype : ℕ
  pub client_ip : Text
  pub rcode : ℕ
  pub answers : Bool × ℕ
  pub latency_ms : Bool × ℕ
  pub from_cache : Bool
  pub blocked : Bool

-- the parameters of the `INSERT` in `flush`
unfoldable pub row_of : QueryEvent → Row
unfolding trim_end_matches as_i32
row_of e = record {
  qname = trim_end_matches b'.' e.qname;
  qtype = e.qtype;
  client_ip = e.client;
  rcode = e.rcode;
  answers = as_i32 e.answers;
  latency_ms = as_i32 e.latency_ms;
  from_cache = e.from_cache;
  blocked = e.blocked;
}

-- the database: whether the n-th batch finds a connection, and whether a row is taken
pub record Database : Type 0 where
  pub connects : ℕ → Bool
  pub takes : Row → Bool

-- the state of the writer and of its table
pub record Writer : Type 0 where
  pub channel : List QueryEvent
  pub buffer : List QueryEvent
  pub batches : ℕ
  pub table : List Row

-- the start of `QueryLogWriter::spawn`
unfoldable pub spawned : Writer
spawned = record { channel = []; buffer = []; batches = 0; table = [] }

module _ (db : Database) (config : QueryLogConfig) where
  -- the loop over the events, in which a row that is refused is passed over
  unfoldable pub insert_rows : List QueryEvent → List Row → List Row
  unfolding row_of
  insert_rows [] table = table
  insert_rows (e ∷ events) table =
      insert_rows events (if db.takes (row_of e) then table ++ row_of e ∷ [] else table)

  -- `flush` of a buffer that is not empty, and its clearing
  unfoldable pub flush : Writer → Writer
  unfolding insert_rows
  flush w = record w {
    buffer = [];
    batches = suc w.batches;
    table = if db.connects w.batches then insert_rows w.buffer w.table else w.table;
  }

  -- `buffer.push(event)`, and the flush of a full buffer
  unfoldable pub push : QueryEvent → Writer → Writer
  unfolding flush
  push e w =
      let w' : Writer = record w { buffer = w.buffer ++ e ∷ [] } in
      if leb config.buffer_size (length w'.buffer) then flush w' else w'

  -- the branch of the event
  unfoldable pub receive : List QueryEvent → Writer → Writer
  unfolding push
  receive [] w = w
  receive (e ∷ rest) w = push e (record w { channel = rest })

  -- the branch of the timer
  unfoldable pub tick : Writer → Writer
  unfolding flush
  tick w = elim w.buffer [ [] ↦ w | e ∷ events ↦ flush w ]

-- `log`, which drops the event if the channel is full: the writer, and whether it was taken
unfoldable pub log : QueryEvent → Writer → Writer × Bool
log e w =
    if ltb (length w.channel) capacity
    then (record w { channel = w.channel ++ e ∷ [] }, true)
    else (w, false)
