-- ===== src/Http/Tests/Cases.antt =====
-- Examples for the HTTP fetcher on small inputs.
use gopeed_torbox.Base.{
  ℕ, zero, suc, ◌+◌, ◌≤◌, ◌<◌, ◌≡◌, ◌↔◌, refl, subst, true, false, none, some, List, [], ◌∷◌, arith,
  get_elem?, map,
}
use gopeed_torbox.Http.Chunk.{
  resolved, Connection, Err, request_error, other, worker, failed, done, slow_start, resolving,
  error, remain, new_chunk, new_connection,
}
use gopeed_torbox.Http.Steal.{
  choose, better, steal, steal_score, help_other_connection, remain_seconds, stolen, shrunk,
}
use gopeed_torbox.Http.Steal.Victim.{Helpable, help-Longest}
use gopeed_torbox.Http.Retry.{again, run_failures}
use gopeed_torbox.Http.Retry.Bounds.{any_fatal, counted, again_iff}
use gopeed_torbox.Http.SlowStart.{SlowStart, new_slow_start, commit_batch}
use gopeed_torbox.Http.Expand.{expand_connections}
use gopeed_torbox.Http.Expand.Limit.{Within, expand-Within}
use gopeed_torbox.Http.Finish.{on_download_complete, is_forbidden_failure}
use gopeed_torbox.Http.Finish.Holes.{all_forbidden-done}
use gopeed_torbox.Http.Lifecycle.{pause, Fetcher, StartEnv, start, do_start}
use gopeed_torbox.Http.Resume.{reset_for_retry}

-- A helper without work, and one connection with 4 MiB left.
abbrev idle_helper : Connection
unfolding new_connection new_chunk
idle_helper = new_connection worker (new_chunk 0 0) 0

abbrev busy : Connection
unfolding new_connection new_chunk
busy = new_connection worker (new_chunk 1 4194304) 0

abbrev two_connections : List Connection
two_connections = idle_helper ∷ busy ∷ []

abbrev after_help : List Connection
unfolding stolen shrunk
after_help =
    record idle_helper { chunk = stolen busy.chunk }
    ∷ record busy { chunk = shrunk busy.chunk }
    ∷ []

helped : help_other_connection 0 two_connections ≡ some after_help
unfolding help_other_connection choose better steal_score remain_seconds remain steal after_help
    idle_helper busy new_connection new_chunk stolen shrunk
helped = refl

help-Longest_example :
    (v : ℕ) × (c : Connection) × (s : ℕ) × (steal 0 v two_connections ≡ some after_help)
    × (get_elem? two_connections v ≡ some c)
    × Helpable 0 v c s
    × ((j : ℕ) (d : Connection) (t : ℕ)
        → get_elem? two_connections j ≡ some d
        → Helpable 0 j d t
        → t ≤ s)
help-Longest_example = help-Longest 0 two_connections after_help helped

not_helped : help_other_connection 1 two_connections ≡ none
unfolding help_other_connection choose better steal_score remain_seconds remain steal idle_helper
    busy new_connection new_chunk
not_helped = refl

-- Two errors that count and two that do not.
abbrev some_errors : List Err
some_errors = request_error 404 ∷ other ∷ request_error 416 ∷ request_error 429 ∷ []

again_iff_example :
    ((run_failures some_errors busy).1 ≡ again)
    ↔ ((any_fatal some_errors ≡ false) × (counted some_errors + busy.retry_times < 3))
unfolding busy new_connection
again_iff_example = again_iff some_errors busy (omega arith)

-- The controller after its first connection.
abbrev after_first : SlowStart
unfolding commit_batch new_slow_start
after_first = commit_batch (new_slow_start 16) 1

expand-Within_example : Within (expand_connections 0 4194305 (busy ∷ []) after_first) 16
unfolding after_first commit_batch new_slow_start
expand-Within_example = expand-Within 0 4194305 (busy ∷ []) after_first refl (omega arith)

abbrev refused : Connection
refused = record busy { state = failed; failed = true; last_err = some (request_error 403) }

refused_forbidden : is_forbidden_failure refused ≡ true
unfolding is_forbidden_failure busy new_connection
refused_forbidden = refl

all_refused :
    (i : ℕ) (c : Connection) → get_elem? (refused ∷ []) i ≡ some c → is_forbidden_failure c ≡ true
all_refused zero c e =
    let same : refused ≡ c = cc in subst (λ d. is_forbidden_failure d ≡ true) same refused_forbidden
all_refused (suc i) c e = cc

all_forbidden-done_example : on_download_complete 1000 (refused ∷ []) ≡ (done, none)
all_forbidden-done_example = all_forbidden-done 1000 (refused ∷ []) all_refused

abbrev env : StartEnv
env = record { opens = true; extra_ok = true; connections = 16 }

abbrev resolving_fetcher : Fetcher
resolving_fetcher = record {
  state = resolving;
  resolved_ch = false;
  start_pending = false;
  range = false;
  size = 0;
  connections = [];
  done_ch = none;
  prefetched = 0;
  prefetch_file = false;
  copied = 0;
  resolve_data_pos = 0;
  slow = new_slow_start 16;
}

-- A fetcher whose download failed, and what the next start makes of it.
abbrev broken_down : Fetcher
broken_down = record resolving_fetcher { state = error; connections = refused ∷ [] }

abbrev restarted : Fetcher
unfolding reset_for_retry
restarted = record broken_down {
  state = slow_start;
  connections = map reset_for_retry (refused ∷ []);
  slow = new_slow_start 16;
}

restart : start env broken_down ≡ some (restarted, true)
unfolding start do_start restarted
restart = refl

abbrev retried : Connection
unfolding reset_for_retry
retried = reset_for_retry refused

-- A resolved fetcher with ten prefetched bytes.
abbrev prefetching : Fetcher
prefetching = record resolving_fetcher {
  state = resolved;
  range = true;
  size = 100;
  prefetched = 10;
  prefetch_file = true;
}

abbrev with_copy : Fetcher
with_copy = record prefetching {
  state = slow_start;
  prefetch_file = false;
  copied = 10;
  resolve_data_pos = 10;
  slow = new_slow_start 16;
}

starts_with_copy : start env prefetching ≡ some (with_copy, true)
unfolding start do_start
starts_with_copy = refl

abbrev without_copy : Fetcher
without_copy = record with_copy { copied = 0 }

starts_without_copy : start env (pause prefetching) ≡ some (without_copy, true)
unfolding start do_start pause
starts_without_copy = refl
