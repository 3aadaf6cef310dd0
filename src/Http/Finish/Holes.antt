-- ===== src/Http/Finish/Holes.antt =====
-- internal/protocol/http/fetcher.go: `onDownloadComplete` after refusals with 403.
use gopeed_torbox.Base.{ℕ, suc, ◌≡◌, refl, true, false, none, some, List, [], ◌∷◌, arith, get_elem?}
use gopeed_torbox.Http.Chunk.{Connection, done}
use gopeed_torbox.Http.Finish.{
  is_forbidden_failure, blocks, all_chunks_complete, final_error, on_download_complete, state_after,
}

forbidden-blocks : (c : Connection) → is_forbidden_failure c ≡ true → blocks c ≡ false
unfolding blocks
forbidden-blocks c h = ground arith

all_forbidden_complete :
    (conns : List Connection)
    → ((i : ℕ) (c : Connection) → get_elem? conns i ≡ some c → is_forbidden_failure c ≡ true)
    → all_chunks_complete conns ≡ true
unfolding all_chunks_complete
all_forbidden_complete [] h = refl
all_forbidden_complete (c ∷ cs) h =
    ground (arith, forbidden-blocks c (h 0 c refl), all_forbidden_complete cs (λ i. h (suc i)))

no_final_error :
    (size : ℕ) (conns : List Connection)
    → all_chunks_complete conns ≡ true
    → final_error size conns ≡ none
unfolding final_error
no_final_error size conns h = ground arith

pub all_complete-done :
    (size : ℕ) (conns : List Connection)
    → all_chunks_complete conns ≡ true
    → on_download_complete size conns ≡ (done, none)
unfolding on_download_complete state_after
all_complete-done size conns h = rw (no_final_error size conns h)

-- When every connection was refused with 403, the fetcher ends in the state done and reports no
-- error, whatever the size.
pub all_forbidden-done :
    (size : ℕ) (conns : List Connection)
    → ((i : ℕ) (c : Connection) → get_elem? conns i ≡ some c → is_forbidden_failure c ≡ true)
    → on_download_complete size conns ≡ (done, none)
all_forbidden-done size conns h = all_complete-done size conns (all_forbidden_complete conns h)
