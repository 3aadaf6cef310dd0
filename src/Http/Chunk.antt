-- ===== src/Http/Chunk.antt =====
-- internal/protocol/http/fetcher.go: chunks, connections and their states, and the sections of
-- `downloadChunkOnce` that run under the connections' lock. Offsets and sizes are int64 values that
-- are never negative.
use gopeed_torbox.Base.{
  ℕ, ◌+◌, ◌-◌, Bool, true, false, ◌&&◌, Option, none, some, ltb, leb, if◌then◌else◌,
}

pub data ConnectionState : Type 0 where
  not_started connecting downloading completed failed : ConnectionState

pub data FetcherState : Type 0 where
  idle resolving resolved slow_start steady paused done error : FetcherState

pub data ConnectionRole : Type 0 where
  resolve primary worker : ConnectionRole

-- An error of a transfer: `RequestError` with its code, `context.Canceled`, or any other.
pub data Err : Type 0 where
  request_error : ℕ → Err
  canceled other : Err

pub record Chunk : Type 0 where
  pub begin : ℕ
  pub end : ℕ
  pub downloaded : ℕ

-- In the source the difference may be negative. Every use compares it with a number that is not
-- negative, or halves it after such a test, so stopping at 0 makes no difference.
unfoldable pub remain : Chunk → ℕ
remain c = c.end + 1 - c.begin - c.downloaded

unfoldable pub new_chunk : ℕ → ℕ → Chunk
new_chunk begin end = record { begin = begin; end = end; downloaded = 0 }

-- `ID` is the position in the fetcher's list. `speed` is in bytes per second; the source computes
-- it in floating point, so here it is a value that each commit is given.
pub record Connection : Type 0 where
  pub role : ConnectionRole
  pub state : ConnectionState
  pub chunk : Chunk
  pub downloaded : ℕ
  pub completed : Bool
  pub failed : Bool
  pub retry_times : ℕ
  pub last_err : Option Err
  pub speed : ℕ

unfoldable pub new_connection : ConnectionRole → Chunk → ℕ → Connection
new_connection role chunk downloaded = record {
  role = role;
  state = not_started;
  chunk = chunk;
  downloaded = downloaded;
  completed = false;
  failed = false;
  retry_times = 0;
  last_err = none;
  speed = 0;
}

abbrev pub is_failed : ConnectionState → Bool
is_failed failed = true
is_failed _ = false

abbrev pub is_completed : ConnectionState → Bool
is_completed completed = true
is_completed _ = false

-- What the first section decides: how many of the `n` bytes read are kept, where they go, and
-- whether the chunk ends with them.
pub record Reservation : Type 0 where
  pub count : ℕ
  pub offset : ℕ
  pub finished : Bool

-- First section after a read of `n` bytes; `none` is the early `return nil`.
unfoldable pub reserve : Bool → Chunk → ℕ → Option Reservation
unfolding remain
reserve range c n =
    let offset = c.begin + c.downloaded in
    if range && leb (remain c) 0
    then none
    else if range && ltb (remain c) n
    then some (record { count = remain c; offset = offset; finished = true })
    else some (record { count = n; offset = offset; finished = false })

-- Second section, after the write.
unfoldable pub commit : Connection → ℕ → ℕ → Connection
commit c n speed = record c {
  chunk = record chunk { downloaded = chunk.downloaded + n };
  downloaded = downloaded + n;
  speed = speed;
}
  where
    open c use {chunk, downloaded}

-- `WriteAt(buf, offset)`: a file is a function of the offset, a buffer one of the index.
unfoldable pub write_at : (ℕ → Option ℕ) → (ℕ → ℕ) → ℕ → ℕ → ℕ → Option ℕ
write_at file buf n offset x =
    if leb offset x && ltb x (offset + n) then some (buf (x - offset)) else file x
