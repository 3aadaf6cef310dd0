-- ===== src/Http/Finish.antt =====
-- internal/protocol/http/fetcher.go: `onDownloadComplete` and `checkCompletion`. `resolveConn` is
-- never assigned in the source, so its summand is left out.
pub mod Complete
pub mod Holes
pub mod Ended
use gopeed_torbox.Base.{
  ℕ, zero, suc, ◌+◌, ◌≡◌, Bool, true, false, not, ◌&&◌, ◌||◌, Option, none, some, List, [], ◌∷◌,
  ltb, leb, if◌then◌else◌, sum_of,
}
use gopeed_torbox.Http.Chunk.{
  Connection, FetcherState, done, error, Err, remain, is_failed, is_completed,
}
use gopeed_torbox.Http.Retry.{is_forbidden}

unfoldable pub total_downloaded : List Connection → ℕ
total_downloaded conns = sum_of (λ c. c.downloaded) conns

-- `conn.State == connFailed && conn.failed`, with a 403 as the last error.
unfoldable pub last_forbidden : Option Err → Bool
unfolding is_forbidden
last_forbidden none = false
last_forbidden (some e) = is_forbidden e

unfoldable pub is_forbidden_failure : Connection → Bool
unfolding last_forbidden
is_forbidden_failure c = (is_failed c.state && c.failed) && last_forbidden c.last_err

-- The connection has work left, is not done, and did not fail with 403.
unfoldable pub blocks : Connection → Bool
blocks c =
    (ltb 0 (remain c.chunk) && (not c.completed && not (is_completed c.state)))
    && not (is_forbidden_failure c)

unfoldable pub all_chunks_complete : List Connection → Bool
all_chunks_complete [] = true
all_chunks_complete (c ∷ cs) = not (blocks c) && all_chunks_complete cs

-- The error that the fetcher reports: the connection, its retries and its last error.
pub record FinalError : Type 0 where
  pub id : ℕ
  pub retries : ℕ
  pub cause : Option Err

unfoldable pub reports : Connection → Bool
reports c = (is_failed c.state && c.failed) && not (is_forbidden_failure c)

unfoldable pub first_error : ℕ → List Connection → Option FinalError
first_error id [] = none
first_error id (c ∷ cs) =
    if reports c
    then some (record { id = id; retries = c.retry_times; cause = c.last_err })
    else first_error (suc id) cs

unfoldable pub download_complete : ℕ → List Connection → Bool
unfolding total_downloaded
download_complete size conns = ltb 0 size && leb size (total_downloaded conns)

unfoldable pub final_error : ℕ → List Connection → Option FinalError
final_error size conns =
    if not (download_complete size conns) && not (all_chunks_complete conns)
    then first_error 0 conns
    else none

unfoldable pub state_after : Option FinalError → FetcherState
state_after none = done
state_after (some e) = error

-- The state that the fetcher ends in, and what `Wait` is sent.
unfoldable pub on_download_complete : ℕ → List Connection → FetcherState × Option FinalError
on_download_complete size conns = (state_after (final_error size conns), final_error size conns)

unfoldable pub all_ended : List Connection → Bool
all_ended [] = true
all_ended (c ∷ cs) = (c.completed || (is_completed c.state || is_failed c.state)) && all_ended cs

unfoldable pub check_completion : ℕ → List Connection → Bool
unfolding all_ended
check_completion size conns = download_complete size conns || all_ended conns
