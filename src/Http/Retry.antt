-- ===== src/Http/Retry.antt =====
-- internal/protocol/http/helper.go, which HTTP failures count, and the error branches of
-- `runConnection` in fetcher.go.
pub mod Bounds
use gopeed_torbox.Base.{
  ℕ, ◌+◌, Bool, true, false, not, ◌&&◌, ◌||◌, Option, none, some, ltb, leb, ◌==◌, if◌then◌else◌,
  List, [], ◌∷◌,
}
use gopeed_torbox.Http.Chunk.{Connection, Err, request_error, canceled, other, failed}

unfoldable pub is_failure_exempt_http_code : ℕ → Bool
is_failure_exempt_http_code code =
    (leb 500 code && leb code 599) || (code == 429 || (code == 408 || (code == 440 || code == 499)))

unfoldable pub should_count_http_failure : Err → Bool
unfolding is_failure_exempt_http_code
should_count_http_failure (request_error code) = not (is_failure_exempt_http_code code)
should_count_http_failure canceled = false
should_count_http_failure other = false

unfoldable pub extract_request_error : Err → Option ℕ
extract_request_error (request_error code) = some code
extract_request_error canceled = none
extract_request_error other = none

-- `re != nil && re.Code == 403`
unfoldable pub is_forbidden : Err → Bool
is_forbidden (request_error code) = code == 403
is_forbidden canceled = false
is_forbidden other = false

unfoldable pub is_redirect_expired_error : Err → Bool
is_redirect_expired_error (request_error code) =
    code == 401 || (code == 403 || (code == 404 || code == 410))
is_redirect_expired_error canceled = false
is_redirect_expired_error other = false

-- What the goroutine does after an error: sleep and run the chunk again, or return.
pub data Next : Type 0 where
  again give_up : Next

-- The new connection, what comes next, and whether `slowStart.onConnectFailed` is called.
pub record Failure : Type 0 where
  pub conn : Connection
  pub next : Next
  pub reported : Bool

-- A counted failure other than 403, after `lastErr` is set.
pub count_failure : Connection → Failure
count_failure c = record {
  conn = record c { state = failed; failed = true; retry_times = c.retry_times + 1 };
  next = if leb 3 (c.retry_times + 1) then give_up else again;
  reported = true;
}

pub record_failure : Err → Connection → Failure
unfolding count_failure should_count_http_failure is_forbidden
record_failure e c =
    if should_count_http_failure e
    then if is_forbidden e
      then record {
        conn = record c { state = failed; failed = true };
        next = give_up;
        reported = true;
      }
      else count_failure c
    else record { conn = record c { state = failed }; next = again; reported = false }

-- `errors.Is(err, context.Canceled)` returns before anything is recorded.
unfoldable pub on_failure : Err → Connection → Failure
unfolding record_failure
on_failure canceled c = record { conn = c; next = give_up; reported = false }
on_failure (request_error code) c =
    record_failure (request_error code) (record c { last_err = some (request_error code) })
on_failure other c = record_failure other (record c { last_err = some other })

-- The pause before the next attempt, in seconds.
unfoldable pub retry_delay : ℕ → ℕ
retry_delay retries = if ltb 5 (retries + 1) then 5 else retries + 1

-- The failures of one connection, up to the one at which its goroutine returns.
unfoldable pub run_failures : List Err → Connection → Connection × Next
run_failures [] c = (c, again)
run_failures (e ∷ es) c = elim ((on_failure e c).next) [
  | give_up ↦ ((on_failure e c).conn, give_up)
  | again ↦ run_failures es (on_failure e c).conn
]
