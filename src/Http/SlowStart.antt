-- ===== src/Http/SlowStart.antt =====
-- internal/protocol/http/fetcher.go, `slowStartController`. The channel `expansionCh` holds one
-- signal at most: a send on the full channel is dropped.
pub mod Batch
use gopeed_torbox.Base.{ℕ, ◌+◌, ◌-◌, ◌*◌, Bool, true, false, ltb, leb, ◌==◌, if◌then◌else◌}

pub record SlowStart : Type 0 where
  pub max_connections : ℕ
  pub total_launched : ℕ
  pub batch_pending : ℕ
  pub batch_ready : ℕ
  pub next_batch_size : ℕ
  pub expansion : Bool
  pub paused : Bool

unfoldable pub new_slow_start : ℕ → SlowStart
new_slow_start max_connections = record {
  max_connections = max_connections;
  total_launched = 0;
  batch_pending = 0;
  batch_ready = 0;
  next_batch_size = 1;
  expansion = false;
  paused = false;
}

unfoldable pub on_connect_success : SlowStart → SlowStart × Bool
on_connect_success s =
    let t = record s { batch_ready = s.batch_ready + 1 } in
    if leb s.batch_pending (s.batch_ready + 1)
    then (record t { expansion = true }, true)
    else (t, false)

-- The pending count is lowered only where it is positive.
unfoldable pub on_connect_failed : SlowStart → SlowStart
on_connect_failed s =
    let pending = if ltb 0 s.batch_pending then s.batch_pending - 1 else s.batch_pending in
    let t = record s { batch_pending = pending } in
    if pending == 0 then record t { expansion = true } else t

-- `remaining <= 0` is `maxConnections <= totalLaunched`.
unfoldable pub get_next_batch_size : SlowStart → ℕ
get_next_batch_size s =
    let remaining = s.max_connections - s.total_launched in
    if s.paused
    then 0
    else if leb s.max_connections s.total_launched
    then 0
    else if ltb remaining s.next_batch_size
    then remaining
    else s.next_batch_size

unfoldable pub commit_batch : SlowStart → ℕ → SlowStart
commit_batch s count = record s {
  total_launched = s.total_launched + count;
  next_batch_size = s.next_batch_size * 2;
  batch_pending = count;
  batch_ready = 0;
}
