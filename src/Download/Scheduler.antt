-- ===== src/Download/Scheduler.antt =====
-- pkg/download/downloader.go: which tasks run and which wait. The part of `doStart` and `doPause`
-- under the status lock is modelled; the work that they leave to a goroutine reports back by
-- `on_error` and `on_done`. `notifyRunning` runs in a goroutine of its own, so it is a step that may
-- come at any later time. `restores` says whether the fetcher of a task can be restored.

pub mod Counts
use Prim.Native.String.{String}
use text.Mathlib.Text.{◌==◌ as str_eq}
use gopeed_torbox.Base.{
  ℕ, zero, suc, ◌+◌, ◌-◌, ◌≡◌, refl, Bool, true, false, not, ◌&&◌, ◌||◌, Option, none, some, List,
  [], ◌∷◌, ◌++◌, map, if◌then◌else◌, ltb, leb, ◌==◌, length, min,
}
use gopeed_torbox.Download.Task.{
  Status, Task, TaskFilter, ready, running, pause, wait, error, done, status_eq, filter_is_empty,
  get_tasks_by_filter, get_task, put_status, running_count,
}

-- `wait_tasks` holds the IDs of the waiting tasks, oldest first.
pub record Downloader : Type 0 where
  pub max_running : ℕ
  pub tasks : List Task
  pub wait_tasks : List String

-- `remainRunningCount() == 0`; the count is negative where more tasks run than are allowed.
unfoldable pub no_slot : Downloader → Bool
no_slot d = d.max_running == running_count d.tasks

abbrev pub is_running_or_done : Status → Bool
is_running_or_done running = true
is_running_or_done done = true
is_running_or_done _ = false

abbrev pub is_pause_or_done : Status → Bool
is_pause_or_done pause = true
is_pause_or_done done = true
is_pause_or_done _ = false

unfoldable pub pause_task : Task → Task
pause_task t = if is_pause_or_done t.status then t else record t { status = pause }

unfoldable pub do_pause : String → List Task → List Task
unfolding pause_task
do_pause i [] = []
do_pause i (t ∷ ts) = if str_eq t.id i then pause_task t ∷ ts else t ∷ do_pause i ts

unfoldable pub pause_each : List String → List Task → List Task
unfolding do_pause
pause_each [] ts = ts
pause_each (i ∷ is) ts = pause_each is (do_pause i ts)

-- The first `needPauseCount` running tasks make way and wait.
unfoldable pub displace : ℕ → List Task → List Task × List String
displace zero ts = (ts, [])
displace (suc n) [] = ([], [])
displace (suc n) (t ∷ ts) = elim (status_eq t.status running) [
  | true ↦ (record t { status = wait } ∷ (displace n ts).0, t.id ∷ (displace n ts).1)
  | false ↦ (t ∷ (displace (suc n) ts).0, (displace (suc n) ts).1)
]

-- The tasks beyond the first `n` are put to wait.
unfoldable pub wait_each : List String → List Task → List Task
wait_each [] ts = ts
wait_each (i ∷ is) ts = wait_each is (put_status i wait ts)

unfoldable pub first_ids : ℕ → List String → List String
first_ids zero is = []
first_ids (suc n) [] = []
first_ids (suc n) (i ∷ is) = i ∷ first_ids n is

unfoldable pub later_ids : ℕ → List String → List String
later_ids zero is = is
later_ids (suc n) [] = []
later_ids (suc n) (i ∷ is) = later_ids n is

unfoldable pub need_running_count : Downloader → ℕ → ℕ
need_running_count d count = if leb d.max_running count then d.max_running else count

-- The loop of `continueAll`: `room` more tasks may run.
unfoldable pub continue_each : ℕ → List Task → List Task × (List String × List String)
continue_each room [] = ([], ([], []))
continue_each room (t ∷ ts) = elim (is_running_or_done t.status) [
  | true ↦ let rest = continue_each room ts in (t ∷ rest.0, rest.1)
  | false ↦ elim room [
    | zero ↦
        let rest = continue_each zero ts in
        (record t { status = wait } ∷ rest.0, (rest.1.0, t.id ∷ rest.1.1))
    | suc n ↦ let rest = continue_each n ts in (t ∷ rest.0, (t.id ∷ rest.1.0, rest.1.1))
  ]
]

module _ (restores : String → Bool) where
  -- `doStart`: the new tasks, and whether it returned nil.
  unfoldable pub start_task : Task → Task × Bool
  start_task t =
      if is_running_or_done t.status
      then (t, true)
      else if restores t.id
      then (record t { status = running }, true)
      else (t, false)

  unfoldable pub do_start : String → List Task → List Task × Bool
  do_start i [] = ([], true)
  do_start i (t ∷ ts) =
      let rest = do_start i ts in
      if str_eq t.id i then ((start_task t).0 ∷ ts, (start_task t).1) else (t ∷ rest.0, rest.1)

  -- The loop over the tasks to start stops at the first error.
  unfoldable pub start_each : List String → List Task → List Task × Bool
  start_each [] ts = (ts, true)
  start_each (i ∷ is) ts =
      let rest = start_each is (do_start i ts).0 in
      if (do_start i ts).1 then rest else ((do_start i ts).0, false)

  unfoldable pub notify_running : Downloader → Downloader
  notify_running d = if no_slot d then d else elim d.wait_tasks [
    | [] ↦ d
    | i ∷ is ↦ record d { tasks = (do_start i d.tasks).0; wait_tasks = is }
  ]

  -- The end of `doCreate`: the new task waits or starts.
  unfoldable pub do_create : Task → Downloader → Downloader
  do_create t d =
      let e = record d { tasks = d.tasks ++ t ∷ [] } in
      if no_slot e
      then record e { tasks = put_status t.id wait e.tasks; wait_tasks = d.wait_tasks ++ t.id ∷ [] }
      else record e { tasks = (do_start t.id e.tasks).0 }

  -- `Continue` for the tasks with these IDs; its filter has been applied. The number to displace is
  -- `needRunningCount - remainRunningCount`, where that is positive.
  unfoldable pub continue_tasks : List String → Downloader → Downloader
  continue_tasks is d =
      let need = need_running_count d (length is) in
      let moved = displace (need + running_count d.tasks - d.max_running) d.tasks in
      let waiting = wait_each (later_ids need is) moved.0 in
      record d {
        tasks = (start_each (first_ids need is) waiting).0;
        wait_tasks = (d.wait_tasks ++ moved.1) ++ later_ids need is;
      }

  unfoldable pub continue_all : Downloader → Downloader
  continue_all d =
      let rest = continue_each (d.max_running - running_count d.tasks) d.tasks in
      record d { tasks = (start_each rest.1.0 rest.0).0; wait_tasks = d.wait_tasks ++ rest.1.1 }
