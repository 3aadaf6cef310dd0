-- ===== src/Http/Transfer.antt =====
-- internal/protocol/http/fetcher.go: the connections of a range download as goroutines over shared
-- chunks and one file. `downloadChunkOnce` is cut at its locks, so that any other connection may
-- run, and steal work, between the sections.
pub mod Start
pub mod Invariant
pub mod Updates
pub mod Sections
pub mod Failures
pub mod Split
pub mod Victims
pub mod Theft
pub mod Growth
pub mod Steps
pub mod Kept
use gopeed_torbox.Base.{
  ℕ, suc, ◌+◌, ◌-◌, ◌*◌, ◌≤◌, ◌<◌, ◌≡◌, ◌≢◌, Bool, true, false, Option, none, some, List, [], ◌∷◌,
  ◌++◌, ◌==◌, if◌then◌else◌, arith, get_elem?, set, length,
}
use gopeed_torbox.Http.Chunk.{
  Chunk, Connection, canceled, ConnectionState, Reservation, not_started, connecting, downloading,
  completed, failed, remain, reserve, commit, write_at, Err,
}
use gopeed_torbox.Http.Steal.{help_other_connection}
use gopeed_torbox.Http.Expand.{grow}
use gopeed_torbox.Http.Retry.{Failure, Next, again, give_up, on_failure}

-- Where the goroutine of a connection stands. `pos` is the offset of the next byte of the response
-- body and `stop` the last one that was asked for.
pub data Local : Type 0 where
  resting : Local  -- before a call of `downloadChunkOnce`
  streaming : (pos stop : ℕ) → Local  -- in its read loop
  reserved : (r : Reservation) (pos stop : ℕ) → Local  -- between the first section and the write
  written : (r : Reservation) (pos stop : ℕ) → Local  -- between the write and the last section
  chunk_done : Local  -- it returned nil
  stopped : Local  -- the goroutine has returned

pub record World : Type 0 where
  pub conns : List Connection
  pub locals : ℕ → Local
  pub file : ℕ → Option ℕ

unfoldable pub update : (ℕ → Local) → ℕ → Local → ℕ → Local
update locals i l j = if j == i then l else locals j

abbrev pub buffer_size : ℕ
buffer_size = 8192

unfoldable pub request : Connection → Connection
request c = record c { state = downloading; failed = false }

-- `runConnection` begins, and its retries are reset behind a theft.
unfoldable pub launch : Connection → Connection
launch c = record c { state = connecting; retry_times = 0 }

unfoldable pub renew : Connection → Connection
renew c = record c { retry_times = 0 }

unfoldable pub complete : Connection → Connection
complete c = record c { completed = true; state = completed }

unfoldable pub after_commit : Bool → ℕ → ℕ → Local
after_commit finished pos stop = if finished then chunk_done else streaming pos stop

unfoldable pub after_failure : Next → Local
after_failure again = resting
after_failure give_up = stopped

-- Between the write and the last section nothing fails.
abbrev pub can_fail : Local → Bool
can_fail resting = true
can_fail (streaming pos stop) = true
can_fail (reserved r pos stop) = true
can_fail (written r pos stop) = false
can_fail chunk_done = false
can_fail stopped = false

-- One section of one goroutine. `remote` is the file on the server, which answers a range request
-- with those bytes in order and ends the body only behind the last of them.
module _ (remote : ℕ → ℕ) where
  pub data Step (w : World) : World → Type 0 where
    -- `runConnection` begins.
    begin_run :
        (i : ℕ) (c : Connection)
        → get_elem? w.conns i ≡ some c
        → w.locals i ≡ resting
        → c.state ≡ not_started
        → Step w (record w { conns = set w.conns i (launch c) })
    -- Nothing remains of the chunk: `downloadChunkOnce` returns at once.
    nothing_left :
        (i : ℕ) (c : Connection)
        → get_elem? w.conns i ≡ some c
        → w.locals i ≡ resting
        → remain c.chunk ≡ 0
        → Step w (record w { locals = update w.locals i chunk_done })
    -- The range request is answered.
    open_body :
        (i : ℕ) (c : Connection)
        → get_elem? w.conns i ≡ some c
        → w.locals i ≡ resting
        → 0 < remain c.chunk
        → Step w (record w {
          conns = set w.conns i (request c);
          locals = update w.locals i (streaming (c.chunk.begin + c.chunk.downloaded) c.chunk.end);
        })
    -- A read of `n` bytes, of which some are kept.
    receive :
        (i n pos stop : ℕ) (c : Connection) (r : Reservation)
        → get_elem? w.conns i ≡ some c
        → w.locals i ≡ streaming pos stop
        → 0 < n
        → n ≤ buffer_size
        → reserve true c.chunk n ≡ some r
        → Step w (record w { locals = update w.locals i (reserved r pos stop) })
    -- A read after which the chunk turns out to be finished, cut by a thief.
    receive_none :
        (i n pos stop : ℕ) (c : Connection)
        → get_elem? w.conns i ≡ some c
        → w.locals i ≡ streaming pos stop
        → reserve true c.chunk n ≡ none
        → Step w (record w { locals = update w.locals i chunk_done })
    write :
        (i pos stop : ℕ) (r : Reservation)
        → w.locals i ≡ reserved r pos stop
        → Step w (record w {
          locals = update w.locals i (written r pos stop);
          file = write_at w.file (λ k. remote (pos + k)) r.count r.offset;
        })
    account :
        (i pos stop speed : ℕ) (c : Connection) (r : Reservation)
        → get_elem? w.conns i ≡ some c
        → w.locals i ≡ written r pos stop
        → Step w (record w {
          conns = set w.conns i (commit c r.count speed);
          locals = update w.locals i (after_commit r.finished (pos + r.count) stop);
        })
    -- The body ends, which the server lets happen only behind `stop`.
    end_of_body :
        (i pos stop : ℕ)
        → w.locals i ≡ streaming pos stop
        → stop < pos
        → Step w (record w { locals = update w.locals i chunk_done })
    -- `runConnection` after a chunk: help another connection, or complete.
    help :
        (i : ℕ) (conns : List Connection) (c : Connection)
        → w.locals i ≡ chunk_done
        → help_other_connection i w.conns ≡ some conns
        → get_elem? conns i ≡ some c
        → Step w (record w { conns = set conns i (renew c); locals = update w.locals i resting })
    finish :
        (i : ℕ) (c : Connection)
        → get_elem? w.conns i ≡ some c
        → w.locals i ≡ chunk_done
        → help_other_connection i w.conns ≡ none
        → Step w
            (record w { conns = set w.conns i (complete c); locals = update w.locals i stopped })
    -- `downloadChunkOnce` returns an error: the request, a read, or the write failed. The context
    -- is not canceled while the fetcher is not paused.
    fail :
        (i : ℕ) (c : Connection) (e : Err)
        → get_elem? w.conns i ≡ some c
        → e ≢ canceled
        → can_fail (w.locals i) ≡ true
        → Step w (record w {
          conns = set w.conns i (on_failure e c).conn;
          locals = update w.locals i (after_failure (on_failure e c).next);
        })
    -- `expandConnections` starts up to `batch` connections on halves of the largest chunks.
    expand : (batch : ℕ) → Step w (record w { conns = grow batch w.conns; locals = w.locals })

  pub data Reach (w : World) : World → Type 0 where
    here : Reach w w
    next : {u v : World} → Reach w u → Step u v → Reach w v
