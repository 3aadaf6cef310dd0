-- ===== src/Http/Single.antt =====
-- internal/protocol/http/fetcher.go: a download without range support, `startResolveDownload` and
-- `runConnectionWithResolveResp`, which reads the response that `Resolve` left open.
use gopeed_torbox.Base.{ℕ, ◌+◌, ◌≡◌, refl, true, false, none, List, [], ◌∷◌, arith, sum_of}
use gopeed_torbox.Http.Chunk.{
  Connection, primary, downloading, completed, failed, done, new_chunk, new_connection,
}
use gopeed_torbox.Http.Finish.{reports, first_error, final_error, on_download_complete, state_after}

-- How the loop over the body ends: with the end of the file, an error of a read, an error of a
-- write, or because the context was canceled.
pub data BodyEnd : Type 0 where
  eof broken write_failed interrupted : BodyEnd

-- The single connection; the end of its chunk does not matter in the source.
unfoldable pub single_connection : Connection
unfolding new_connection new_chunk
single_connection = new_connection primary (new_chunk 0 0) 0

unfoldable pub read_some : Connection → ℕ → Connection
read_some c n = record c {
  chunk = record chunk { downloaded = chunk.downloaded + n };
  downloaded = downloaded + n;
}
  where
    open c use {chunk, downloaded}

unfoldable pub end_body : BodyEnd → Connection → Connection
end_body eof c = record c { completed = true; state = completed }
end_body broken c = record c { state = failed }
end_body write_failed c = record c { state = failed; failed = true }
end_body interrupted c = c

-- The reads of the body, by their sizes, and its end.
unfoldable pub read_body : List ℕ → BodyEnd → Connection → Connection
unfolding read_some end_body
read_body [] e c = end_body e c
read_body (n ∷ ns) e c = read_body ns e (read_some c n)

unfoldable pub run_connection_with_resolve_resp : List ℕ → BodyEnd → Connection → Connection
unfolding read_body
run_connection_with_resolve_resp ns e c =
    read_body ns e (record c { state = downloading; failed = false })

read-failed :
    (ns : List ℕ) (c : Connection) → c.failed ≡ false → (read_body ns broken c).failed ≡ false
unfolding read_body
read-failed [] c h = h
read-failed (n ∷ ns) c h = read-failed ns (read_some c n) h

read-downloaded :
    (ns : List ℕ) (e : BodyEnd) (c : Connection)
    → (read_body ns e c).downloaded ≡ c.downloaded + sum_of (λ n. n) ns
unfolding read_body
read-downloaded [] eof c = omega arith
read-downloaded [] broken c = omega arith
read-downloaded [] write_failed c = omega arith
read-downloaded [] interrupted c = omega arith
read-downloaded (n ∷ ns) e c = omega (arith, read-downloaded ns e (read_some c n))

-- The connection counts every byte of every read, however the body ends.
pub run-downloaded :
    (ns : List ℕ) (e : BodyEnd)
    → (run_connection_with_resolve_resp ns e single_connection).downloaded ≡ sum_of (λ n. n) ns
unfolding run_connection_with_resolve_resp single_connection
run-downloaded ns e =
    omega (
      arith,
      read-downloaded ns e (record single_connection { state = downloading; failed = false }),
    )

not_failed-reports : (c : Connection) → c.failed ≡ false → reports c ≡ false
unfolding reports
not_failed-reports c h = ground arith

not_failed-no_error :
    (size : ℕ) (c : Connection) → c.failed ≡ false → final_error size (c ∷ []) ≡ none
unfolding final_error first_error
not_failed-no_error size c h = ground (arith, not_failed-reports c h)

not_failed-done :
    (size : ℕ) (c : Connection)
    → c.failed ≡ false
    → on_download_complete size (c ∷ []) ≡ (done, none)
unfolding on_download_complete state_after
not_failed-done size c h = rw (not_failed-no_error size c h)

-- A download without range support whose body breaks off, after any reads and whatever its size
-- was to be, is reported as done without error.
pub broken_body-done :
    (size : ℕ) (ns : List ℕ)
    → on_download_complete size (run_connection_with_resolve_resp ns broken single_connection ∷ [])
      ≡ (done, none)
unfolding run_connection_with_resolve_resp
broken_body-done size ns = not_failed-done size _ (read-failed ns _ refl)
