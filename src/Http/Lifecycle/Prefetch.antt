-- ===== src/Http/Lifecycle/Prefetch.antt =====
-- internal/protocol/http/fetcher.go: what a start makes of the prefetched bytes.
use gopeed_torbox.Base.{◌<◌, ◌≡◌, true, some, arith}
use gopeed_torbox.Http.Chunk.{resolved}
use gopeed_torbox.Http.Lifecycle.{Fetcher, StartEnv, start, do_start, pause}

-- A successful start right after the resolution of a resource with range support, with prefetched
-- bytes and their temporary file there, puts the position of the first connection behind those
-- bytes and copies them to the target.
pub start-copied :
    (env : StartEnv) (f g : Fetcher)
    → f.state ≡ resolved
    → f.range ≡ true
    → f.prefetch_file ≡ true
    → 0 < f.prefetched
    → start env f ≡ some (g, true)
    → (g.resolve_data_pos ≡ f.prefetched) × (g.copied ≡ g.resolve_data_pos)
unfolding start do_start
start-copied env f g s r p b e = ground arith

-- A successful start after a pause, of a resource with range support, puts the position of the
-- first connection behind the prefetched bytes as well, but copies nothing to the target.
pub paused_start-not_copied :
    (env : StartEnv) (f g : Fetcher)
    → f.range ≡ true
    → start env (pause f) ≡ some (g, true)
    → (g.resolve_data_pos ≡ f.prefetched) × (g.copied ≡ f.copied)
unfolding start do_start pause
paused_start-not_copied env f g r e = ground arith
