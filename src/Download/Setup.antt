-- ===== src/Download/Setup.antt =====
-- pkg/download/downloader.go: the part of `Setup` that loads the tasks from the storage. A stored task
-- has a time of creation, and may be broken: without meta. `sort` stands for `sort.Slice` by the times.
pub mod Loaded
use Prim.Native.String.{String}
use gopeed_torbox.Base.{ℕ, ◌≤◌, Bool, true, false, List, [], ◌∷◌, map, if◌then◌else◌}
use gopeed_torbox.Download.Task.{Status, Task, pause, error, done, running, ready, wait}
use gopeed_torbox.Download.Scheduler.{Downloader}

pub record StoredTask : Type 0 where
  pub task : Task
  pub has_meta : Bool
  pub created_at : ℕ

abbrev pub is_done_or_error : Status → Bool
is_done_or_error done = true
is_done_or_error error = true
is_done_or_error _ = false

unfoldable pub settled : Task → Task
settled t = if is_done_or_error t.status then t else record t { status = pause }

-- The loop goes from the last task to the first.
unfoldable pub load_tasks : List StoredTask → List StoredTask
unfolding settled
load_tasks [] = []
load_tasks (s ∷ ss) =
    let rest = load_tasks ss in
    if s.has_meta then record s { task = settled s.task } ∷ rest else rest

-- `d.tasks` after it; no task waits.
unfoldable pub set_up_tasks : (List StoredTask → List StoredTask) → List StoredTask → List Task
unfolding load_tasks
set_up_tasks sort stored = map (λ s. s.task) (sort (load_tasks stored))

unfoldable pub set_up : (List StoredTask → List StoredTask) → ℕ → List StoredTask → Downloader
unfolding set_up_tasks
set_up sort max stored = record {
  max_running = max;
  tasks = set_up_tasks sort stored;
  wait_tasks = [];
}
