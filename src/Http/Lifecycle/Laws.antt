-- ===== src/Http/Lifecycle/Laws.antt =====
-- internal/protocol/http/fetcher.go: `Start` and the fetcher's state.
use gopeed_torbox.Base.{
  ℕ, ◌≡◌, ◌≢◌, ◌⊎◌, Bool, true, false, some, map, arith, get_elem?, get_elem?-map_cases,
}
use gopeed_torbox.Http.Chunk.{Connection, resolving, slow_start, error, is_completed}
use gopeed_torbox.Http.SlowStart.{new_slow_start}
use gopeed_torbox.Http.Resume.{reset_for_retry, skips}
use gopeed_torbox.Http.Lifecycle.{Fetcher, StartEnv, start, do_start, resolve_succeeded}

-- A start while the resource is being resolved, with none pending, sets the pending flag, and the
-- end of `Resolve` then does what a start after it does.
pub early_start :
    (env : StartEnv) (range : Bool) (size : ℕ) (f : Fetcher)
    → f.state ≡ resolving
    → f.start_pending ≡ false
    → (start env f ≡ some (record f { start_pending = true }, true))
      × (resolve_succeeded env range size (record f { start_pending = true })
          ≡ record (do_start env (resolve_succeeded env range size f)).0 { start_pending = true })
unfolding start resolve_succeeded do_start
early_start env range size f e p = (ground arith, ground arith)

-- A Start that does not return the error of its default case, in a state other than resolving,
-- ends in stateSlowStart with a fresh controller and no error, or returns an error and leaves the
-- state.
pub start_cases :
    (env : StartEnv) (f g : Fetcher) (nil : Bool)
    → f.state ≢ resolving
    → start env f ≡ some (g, nil)
    → ((nil ≡ true) × (g.state ≡ slow_start) × (g.slow ≡ new_slow_start env.connections))
      ⊎ ((nil ≡ false) × (g.state ≡ f.state))
unfolding start do_start
start_cases env f g nil n e = ground arith

start-connections :
    (env : StartEnv) (f g : Fetcher)
    → f.state ≡ error
    → start env f ≡ some (g, true)
    → g.connections ≡ map reset_for_retry f.connections
unfolding start do_start
start-connections env f g s e = ground arith

reset-not_skips :
    (c : Connection)
    → ((reset_for_retry c).completed ≡ true ⊎ is_completed (reset_for_retry c).state ≡ true)
      ⊎ ((skips (reset_for_retry c) ≡ false) × ((reset_for_retry c).retry_times ≡ 0))
unfolding reset_for_retry skips
reset-not_skips c = ground arith

-- After a successful start from the error state, every connection that is not complete is resumed,
-- with no retries counted.
pub retry-not_skips :
    (env : StartEnv) (f g : Fetcher)
    → f.state ≡ error
    → start env f ≡ some (g, true)
    → (i : ℕ) (c : Connection) → get_elem? g.connections i ≡ some c
    → ((c.completed ≡ true) ⊎ (is_completed c.state ≡ true))
      ⊎ ((skips c ≡ false) × (c.retry_times ≡ 0))
retry-not_skips env f g s e i c q =
    let found : get_elem? (map reset_for_retry f.connections) i ≡ some c =
      rw (start-connections env f g s e) at q in
    let (d, _, k) = get_elem?-map_cases reset_for_retry f.connections i c found in
    rw k (reset-not_skips d)
