-- ===== src/Http/Fallback/Shift.antt =====
-- internal/protocol/http/fetcher.go: the file after an attempt of `runConnectionFallback`, and after a
-- second one.
use gopeed_torbox.Base.{
  ℕ, ◌+◌, ◌-◌, ◌≤◌, ◌<◌, ◌≡◌, refl, ◌∙◌, ap, true, Option, some, List, [], ◌∷◌, arith, sum_of,
  dec_lt,
}
use gopeed_torbox.Http.Chunk.{other, write_at}
use gopeed_torbox.Http.Retry.{should_count_http_failure}
use gopeed_torbox.Http.Single.{eof, broken}
use gopeed_torbox.Http.Fallback.{
  FallbackState, body, reads, read_at, attempt, run_connection_fallback, connect, open_response,
  complete_fallback, fallback_failure, retry_later, note_error,
}

abbrev pub total : List ℕ → ℕ
total ns = sum_of (λ n. n) ns

module _ (remote : ℕ → ℕ) where
  reads-downloaded :
      (pos : ℕ) (ns : List ℕ) (s : FallbackState)
      → (reads remote pos ns s).conn.chunk.downloaded ≡ s.conn.chunk.downloaded + total ns
  unfolding reads
  reads-downloaded pos [] s = omega arith
  reads-downloaded pos (n ∷ ns) s =
      omega (arith, reads-downloaded (pos + n) ns (read_at remote pos n s))

  -- Bytes before the place of writing stay.
  reads-before :
      (pos : ℕ) (ns : List ℕ) (s : FallbackState) (x : ℕ)
      → x < s.conn.chunk.downloaded
      → (reads remote pos ns s).file x ≡ s.file x
  unfolding reads read_at write_at
  reads-before pos [] s x h = refl
  reads-before pos (n ∷ ns) s x h =
      reads-before (pos + n) ns (read_at remote pos n s) x (omega (arith, h)) ∙ ground (arith, h)

  read-inside :
      (x d n pos : ℕ)
      → d ≤ x
      → x < d + n
      → (file : ℕ → Option ℕ)
      → write_at file (λ k. remote (pos + k)) n d x ≡ some (remote (pos + (x - d)))
  unfolding write_at
  read-inside x d n pos l u file = ground (arith, l, u)

  -- Byte `j` of what is read goes `j` behind the place of writing.
  reads-file :
      (pos : ℕ) (ns : List ℕ) (s : FallbackState) (j : ℕ)
      → j < total ns
      → (reads remote pos ns s).file (s.conn.chunk.downloaded + j) ≡ some (remote (pos + j))
  unfolding reads read_at write_at
  reads-file pos [] s j h = absurd (omega (arith, h))
  reads-file pos (n ∷ ns) s j h = elim (dec_lt j n) [
    | yes l ↦
        let d = s.conn.chunk.downloaded in
        let back : pos + ((d + j) - d) ≡ pos + j = omega arith in
        reads-before (pos + n) ns (read_at remote pos n s) (d + j) (omega (arith, l))
        ∙ read-inside (d + j) d n pos (omega arith) (omega (arith, l)) s.file
        ∙ ap (λ x. some (remote x)) back
    | no q ↦
        let d = s.conn.chunk.downloaded in
        let place : d + j ≡ (d + n) + (j - n) = omega (arith, q) in
        let source : (pos + n) + (j - n) ≡ pos + j = omega (arith, q) in
        ap (reads remote (pos + n) ns (read_at remote pos n s)).file place
        ∙ reads-file (pos + n) ns (read_at remote pos n s) (j - n) (omega (arith, q, h))
        ∙ ap (λ x. some (remote x)) source
  ]

  -- If an attempt of runConnectionFallback that begins with nothing downloaded breaks off, and the
  -- next attempt brings the whole file, then the connection is completed, and every byte of the
  -- server's file stands behind its place in the target, by the length of what the first attempt
  -- brought.
  pub broken_fallback-shifted :
      (ns ms : List ℕ) (s : FallbackState) (j : ℕ)
      → s.conn.chunk.downloaded ≡ 0
      → j < total ms
      → ((run_connection_fallback remote (body ns broken ∷ body ms eof ∷ []) s).file (total ns + j)
          ≡ some (remote j))
        × ((run_connection_fallback remote (body ns broken ∷ body ms eof ∷ []) s).conn.completed
            ≡ true)
  unfolding run_connection_fallback attempt connect open_response complete_fallback fallback_failure
      retry_later note_error should_count_http_failure
  broken_fallback-shifted ns ms s j fresh h =
      let t = reads remote 0 ns (open_response (connect s)) in
      let begun : t.conn.chunk.downloaded ≡ total ns =
        reads-downloaded 0 ns (open_response (connect s)) ∙ omega (arith, fresh) in
      let u = open_response (connect (retry_later (note_error other t))) in
      let place : total ns + j ≡ u.conn.chunk.downloaded + j = omega (arith, begun) in
      let source : 0 + j ≡ j = omega arith in
      (
        ap (reads remote 0 ms u).file place
            ∙ reads-file 0 ms u j h
            ∙ ap (λ x. some (remote x)) source,
        refl,
      )
