-- ===== src/Http/Prefetch.antt =====
-- internal/protocol/http/fetcher.go: `asyncPrefetch`, the read of the first response in the background. The
-- bytes that the reads bring, and how reads and writes end, are the rounds of the loop.
pub mod Kept
use gopeed_torbox.Base.{
  ℕ, ◌+◌, Bool, true, false, Option, none, some, List, [], ◌∷◌, ◌++◌, if◌then◌else◌, length, take,
}

-- `temp_file` has the bytes of the temporary file; `prefetch_failed` is whether `prefetchErr` is set.
pub record Prefetch : Type 0 where
  pub temp_file : List ℕ
  pub prefetch_size : ℕ
  pub prefetch_failed : Bool
  pub prefetch_done : Bool

-- How a read ends: with no error, with `io.EOF`, or with another error.
pub data ReadEnd : Type 0 where
  no_error eof read_error : ReadEnd

-- Whether the stop channel is closed, what `Read` brings, how it ends, and, if the write of it fails, how
-- many bytes were written.
pub record Round : Type 0 where
  pub stopped : Bool
  pub bytes : List ℕ
  pub read_end : ReadEnd
  pub write_error : Option ℕ

abbrev pub after_read : ReadEnd → Prefetch → Prefetch × Bool
after_read no_error p = (p, true)
after_read eof p = (p, false)
after_read read_error p = (record p { prefetch_failed = true }, false)

abbrev pub write_read : List ℕ → Option ℕ → ReadEnd → Prefetch → Prefetch × Bool
write_read [] write_error end p = after_read end p
write_read (b ∷ bs) none end p = after_read end (record p {
  temp_file = p.temp_file ++ b ∷ bs;
  prefetch_size = p.prefetch_size + length (b ∷ bs);
})
write_read (b ∷ bs) (some k) end p =
    (record p { temp_file = p.temp_file ++ take k (b ∷ bs); prefetch_failed = true }, false)

-- A round of the loop, and whether the loop goes on.
unfoldable pub prefetch_round : Prefetch → Round → Prefetch × Bool
prefetch_round p r = if r.stopped then (p, false) else write_read r.bytes r.write_error r.read_end p

-- After the last of the rounds the loop has not ended.
unfoldable pub prefetch_loop : Prefetch → List Round → Prefetch
unfolding prefetch_round
prefetch_loop p [] = p
prefetch_loop p (r ∷ rs) =
    let (q, goes_on) = prefetch_round p r in
    let rest = prefetch_loop q rs in if goes_on then rest else record q { prefetch_done = true }

abbrev pub no_prefetch : Prefetch
no_prefetch = record {
  temp_file = [];
  prefetch_size = 0;
  prefetch_failed = false;
  prefetch_done = false;
}

-- `has_response` is whether there is a response that was resolved, `created` whether there is a temporary file.
unfoldable pub async_prefetch : Bool → Bool → List Round → Prefetch
unfolding prefetch_loop
async_prefetch has_response created rounds =
    if has_response
    then if created
      then prefetch_loop no_prefetch rounds
      else record no_prefetch { prefetch_failed = true; prefetch_done = true }
    else record no_prefetch { prefetch_done = true }
