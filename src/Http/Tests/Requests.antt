-- ===== src/Http/Tests/Requests.antt =====
-- Examples for requests, headers, and downloads that go on without range support.
use gopeed_torbox.Base.{◌+◌, ◌≡◌, refl, true, false, none, some, List, [], ◌∷◌, arith}
use gopeed_torbox.Http.Single.{single_connection, broken, eof}
use gopeed_torbox.Http.Chunk.{new_connection, new_chunk}
use gopeed_torbox.Http.Fallback.{FallbackState, body, run_connection_fallback}
use gopeed_torbox.Http.Fallback.Shift.{total, broken_fallback-shifted}
use gopeed_torbox.Http.Prefetch.{Round, no_error, async_prefetch}
use gopeed_torbox.Http.Prefetch.Kept.{received, BeginsWith, async_prefetch-BeginsWith}

abbrev fresh : FallbackState
fresh = record { conn = single_connection; file = λ x. none; retries = 0; counted_retries = 0 }

-- One byte, an error, and then the whole file of two bytes: the second byte of the server's file is the
-- third of the result.
broken_fallback-shifted_example :
    ((run_connection_fallback (λ x. x) (body (1 ∷ []) broken ∷ body (2 ∷ []) eof ∷ []) fresh).file
        (total (1 ∷ []) + 1)
      ≡ some 1)
    × ((run_connection_fallback
          (λ x. x)
          (body (1 ∷ []) broken ∷ body (2 ∷ []) eof ∷ [])
          fresh).conn.completed
        ≡ true)
unfolding single_connection new_connection new_chunk
broken_fallback-shifted_example =
    broken_fallback-shifted (λ x. x) (1 ∷ []) (2 ∷ []) fresh 1 refl (omega arith)

-- Two bytes are kept, of the next two only one is written, and the last round is not reached.
abbrev rounds : List Round
rounds =
    record { stopped = false; bytes = 1 ∷ 2 ∷ []; read_end = no_error; write_error = none }
    ∷ record { stopped = false; bytes = 3 ∷ 4 ∷ []; read_end = no_error; write_error = some 1 }
    ∷ record { stopped = true; bytes = 5 ∷ []; read_end = no_error; write_error = none }
    ∷ []

async_prefetch-BeginsWith_example :
    BeginsWith (async_prefetch true true rounds) (1 ∷ 2 ∷ 3 ∷ 4 ∷ 5 ∷ [])
unfolding received
async_prefetch-BeginsWith_example = async_prefetch-BeginsWith true true rounds
