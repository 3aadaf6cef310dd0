-- ===== src/Http/Lifecycle.antt =====
-- internal/protocol/http/fetcher.go: the fetcher's state machine through `Setup`, `Resolve`, `Start`,
-- `doStart` and `Pause`. What the file system, the server and the user's options decide is an
-- argument.
pub mod Laws
pub mod Prefetch
use gopeed_torbox.Base.{
  ℕ, ◌≡◌, Bool, true, false, not, ◌&&◌, ◌||◌, Option, none, some, List, [], map, leb, ltb,
  if◌then◌else◌,
}
use gopeed_torbox.Http.Chunk.{
  Connection, FetcherState, idle, resolving, resolved, slow_start, steady, paused, done, error,
}
use gopeed_torbox.Http.SlowStart.{SlowStart, new_slow_start}
use gopeed_torbox.Http.Finish.{FinalError, on_download_complete}
use gopeed_torbox.Http.Resume.{reset_for_retry}

-- `done_ch` is the buffer of the channel that `Wait` reads. `prefetched` is the counter of the bytes
-- that `asyncPrefetch` has put into its temporary file, `prefetch_file` whether that file is there,
-- and `copied` how many bytes `doStart` has copied from it to the start of the target.
pub record Fetcher : Type 0 where
  pub state : FetcherState
  pub resolved_ch : Bool
  pub start_pending : Bool
  pub range : Bool
  pub size : ℕ
  pub connections : List Connection
  pub done_ch : Option (Option FinalError)
  pub prefetched : ℕ
  pub prefetch_file : Bool
  pub copied : ℕ
  pub resolve_data_pos : ℕ
  pub slow : SlowStart

-- `Setup`: a fetcher that already has its resource is resolved.
unfoldable pub setup : Bool → Fetcher → Fetcher
setup has_resource f =
    if has_resource
    then record f { resolved_ch = true; state = resolved; done_ch = none }
    else record f { resolved_ch = false; state = idle; done_ch = none }

-- What `doStart` meets: whether the target file opens, whether the request's extra parses, and the
-- configured number of connections.
pub record StartEnv : Type 0 where
  pub opens : Bool
  pub extra_ok : Bool
  pub connections : ℕ

unfoldable pub is_done : FetcherState → Bool
is_done done = true
is_done _ = false

unfoldable pub is_error : FetcherState → Bool
is_error error = true
is_error _ = false

-- The reset of a retry: a pending error is taken out of the channel, and the connections that are
-- not complete may try again.
unfoldable pub prepare_retry : Fetcher → Fetcher
unfolding is_error
prepare_retry f =
    if is_error f.state
    then record f { done_ch = none; connections = map reset_for_retry f.connections }
    else f

-- `stopPrefetchAndCopyData`, where the copy succeeds. The counter keeps its value.
unfoldable pub take_prefetched : Fetcher → Fetcher
take_prefetched f =
    if f.range
    then record f {
      resolve_data_pos = f.prefetched;
      copied = if f.prefetch_file && ltb 0 f.prefetched then f.prefetched else f.copied;
      prefetch_file = false;
    }
    else f

-- The fetcher, and whether the call returned nil. The caller waits until `resolved_ch` is closed.
unfoldable pub do_start : StartEnv → Fetcher → Fetcher × Bool
unfolding is_done prepare_retry take_prefetched new_slow_start
do_start env f =
    if is_done f.state
    then (f, true)
    else if not env.opens
    then (prepare_retry f, false)
    else if not env.extra_ok
    then (take_prefetched (prepare_retry f), false)
    else (
      record (take_prefetched (prepare_retry f)) {
        slow = new_slow_start env.connections;
        state = slow_start;
      },
      true,
    )

-- `Start` by the state it finds; `none` is the error of its default case.
unfoldable pub start_in : FetcherState → StartEnv → Fetcher → Option (Fetcher × Bool)
start_in idle env f = none
start_in resolving env f = some (record f { start_pending = true }, true)
start_in resolved env f = some (do_start env f)
start_in slow_start env f = some (do_start env f)
start_in steady env f = some (do_start env f)
start_in paused env f = some (do_start env f)
start_in done env f = none
start_in error env f = some (do_start env f)

unfoldable pub start : StartEnv → Fetcher → Option (Fetcher × Bool)
unfolding start_in
start env f = start_in f.state env f

-- The end of `Resolve`. On success a start that came too early is made now.
unfoldable pub resolve_failed : Fetcher → Fetcher
resolve_failed f = record f { state = error }

unfoldable pub resolve_succeeded : StartEnv → Bool → ℕ → Fetcher → Fetcher
unfolding do_start
resolve_succeeded env range size f =
    let g = record f { range = range; size = size; state = resolved; resolved_ch = true } in
    if f.start_pending then (do_start env g).0 else g

-- `select { case ch <- v: default: }` on a channel that buffers one value.
unfoldable pub offer {ℓ} : {A : Type ℓ} → Option A → A → Option A
offer none v = some v
offer (some u) v = some u

-- `onDownloadComplete` as the fetcher's step: the channel keeps what it already holds.
unfoldable pub complete_download : Fetcher → Fetcher
unfolding on_download_complete
complete_download f =
    let r = on_download_complete f.size f.connections in
    record f { state = r.0; done_ch = offer f.done_ch r.1 }

-- `Pause`, after its goroutines have stopped; it removes the temporary file.
unfoldable pub pause : Fetcher → Fetcher
pause f = record f { state = paused; prefetch_file = false }
