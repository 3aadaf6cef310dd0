-- ===== src/Http/Fallback.antt =====
-- internal/protocol/http/fetcher.go: `runConnectionFallback`, by which a download without range support
-- goes on when the response that `Resolve` opened is gone. Each attempt asks for the whole file again.
pub mod Shift
use gopeed_torbox.Base.{
  ℕ, ◌+◌, Bool, true, false, Option, none, some, List, [], ◌∷◌, leb, if◌then◌else◌,
}
use gopeed_torbox.Http.Chunk.{
  Connection, Err, canceled, other, connecting, downloading, completed, failed, write_at,
}
use gopeed_torbox.Http.Retry.{should_count_http_failure, is_forbidden, Next, again, give_up}
use gopeed_torbox.Http.Single.{BodyEnd, eof, broken, write_failed, interrupted}

-- An attempt: an error before the body, or a body by the sizes of its reads and its end.
pub data Attempt : Type 0 where
  refused : Err → Attempt
  body : List ℕ → BodyEnd → Attempt

pub record FallbackState : Type 0 where
  pub conn : Connection
  pub file : ℕ → Option ℕ
  pub retries : ℕ
  pub counted_retries : ℕ

abbrev pub end_error : BodyEnd → Option Err
end_error eof = none
end_error broken = some other
end_error write_failed = some other
end_error interrupted = some canceled

unfoldable pub connect : FallbackState → FallbackState
connect s = record s { conn = record s.conn { state = connecting } }

unfoldable pub open_response : FallbackState → FallbackState
open_response s = record s { conn = record s.conn { state = downloading; failed = false } }

-- The end of an attempt without error.
unfoldable pub complete_fallback : FallbackState → FallbackState
complete_fallback s = record s { conn = record s.conn { completed = true; state = completed } }

-- After a failure that does not count, or not for the third time.
unfoldable pub retry_later : FallbackState → FallbackState
retry_later s = record s { conn = record s.conn { state = failed }; retries = s.retries + 1 }

unfoldable pub give_up_fallback : FallbackState → FallbackState
give_up_fallback s = record s { conn = record s.conn { state = failed; failed = true } }

unfoldable pub count_retry : FallbackState → FallbackState
count_retry s = record s {
  conn = record s.conn { retry_times = s.conn.retry_times + 1 };
  counted_retries = s.counted_retries + 1;
}

unfoldable pub note_error : Err → FallbackState → FallbackState
note_error e s = record s { conn = record s.conn { last_err = some e } }

unfoldable pub fallback_failure : Err → FallbackState → FallbackState × Next
unfolding retry_later give_up_fallback count_retry note_error
fallback_failure e s =
    let t = note_error e s in
    let u = count_retry t in
    if should_count_http_failure e
    then if is_forbidden e
      then (give_up_fallback t, give_up)
      else if leb 3 u.counted_retries
      then (give_up_fallback u, give_up)
      else (retry_later u, again)
    else (retry_later t, again)

-- What an attempt's error leads to; `none` is no error.
abbrev pub after_attempt : Option Err → FallbackState → FallbackState × Next
unfolding complete_fallback fallback_failure
after_attempt none s = (complete_fallback s, give_up)
after_attempt (some canceled) s = (s, give_up)
after_attempt (some e) s = fallback_failure e s

-- `remote` is the file on the server.
module _ (remote : ℕ → ℕ) where
  -- A read of `n` bytes of the body, which is at `pos`, is written at `Chunk.Downloaded`.
  unfoldable pub read_at : ℕ → ℕ → FallbackState → FallbackState
  unfolding write_at
  read_at pos n s = record s {
    conn = record s.conn {
      chunk = record s.conn.chunk { downloaded = s.conn.chunk.downloaded + n };
      downloaded = s.conn.downloaded + n;
    };
    file = write_at s.file (λ k. remote (pos + k)) n s.conn.chunk.downloaded;
  }

  unfoldable pub reads : ℕ → List ℕ → FallbackState → FallbackState
  unfolding read_at
  reads pos [] s = s
  reads pos (n ∷ ns) s = reads (pos + n) ns (read_at pos n s)

  unfoldable pub attempt : Attempt → FallbackState → FallbackState × Next
  unfolding connect open_response reads
  attempt (refused e) s = after_attempt (some e) (connect s)
  attempt (body ns e) s = after_attempt (end_error e) (reads 0 ns (open_response (connect s)))

  abbrev pub next_attempt : (FallbackState → FallbackState) → FallbackState × Next → FallbackState
  next_attempt rest (s, again) = rest s
  next_attempt rest (s, give_up) = s

  -- The attempts, as long as there is a next one.
  unfoldable pub run_connection_fallback : List Attempt → FallbackState → FallbackState
  unfolding attempt
  run_connection_fallback [] s = s
  run_connection_fallback (a ∷ later) s = next_attempt (run_connection_fallback later) (attempt a s)
