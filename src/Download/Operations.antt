-- ===== src/Download/Operations.antt =====
-- pkg/download/downloader.go: `Pause`, `Continue`, `ContinueBatch`, `Delete` and the reports of the
-- goroutines, as operations on the downloader, and histories of them.
pub mod Limit
pub mod Bugs
use Prim.Native.String.{String}
use text.Mathlib.Text.{◌==◌ as str_eq}
use gopeed_torbox.Base.{
  ℕ, Bool, true, false, not, ◌&&◌, Option, none, some, List, [], ◌∷◌, ◌++◌, map, if◌then◌else◌,
}
use gopeed_torbox.Download.Task.{
  Status, Task, TaskFilter, new_task, running, pause, error, done, filter_is_empty,
  get_tasks_by_filter, put_status, is_empty,
}
use gopeed_torbox.Download.Scheduler.{
  Downloader, pause_task, pause_each, start_each, notify_running, do_create, continue_tasks,
  continue_all,
}

abbrev pub ids_of : List Task → List String
ids_of = map λ t. t.id

-- `filter == nil || filter.IsEmpty()`
unfoldable pub selects_all : Option TaskFilter → Bool
unfolding filter_is_empty
selects_all none = true
selects_all (some f) = filter_is_empty f

unfoldable pub pause_all : Downloader → Downloader
pause_all d = record d { tasks = map pause_task d.tasks; wait_tasks = [] }

-- The filter of `Pause`, with the statuses that it adds.
unfoldable pub to_pause : TaskFilter → TaskFilter
to_pause f = record f { not_statuses = pause ∷ error ∷ done ∷ [] }

unfoldable pub to_continue : TaskFilter → TaskFilter
to_continue f = record f { not_statuses = running ∷ done ∷ [] }

-- The IDs of the tasks that a filter selects.
unfoldable pub found : TaskFilter → List Task → List String
found f ts = ids_of (get_tasks_by_filter (some f) ts)

-- `Pause` up to the `notifyRunning` behind it; `false` is `ErrTaskNotFound`.
unfoldable pub pause_tasks : TaskFilter → Downloader → Downloader × Bool
unfolding found to_pause
pause_tasks f d =
    if filter_is_empty f
    then (pause_all d, true)
    else if is_empty (found (to_pause f) d.tasks)
    then (d, false)
    else (record d { tasks = pause_each (found (to_pause f) d.tasks) d.tasks }, true)

-- The first task, or the first waiting ID, of each ID on a list is removed.
unfoldable pub remove_task : String → List Task → List Task
remove_task i [] = []
remove_task i (t ∷ ts) = if str_eq t.id i then ts else t ∷ remove_task i ts

unfoldable pub remove_tasks : List String → List Task → List Task
unfolding remove_task
remove_tasks [] ts = ts
remove_tasks (i ∷ is) ts = remove_tasks is (remove_task i ts)

unfoldable pub remove_id : String → List String → List String
remove_id i [] = []
remove_id i (j ∷ js) = if str_eq j i then js else j ∷ remove_id i js

unfoldable pub remove_ids : List String → List String → List String
unfolding remove_id
remove_ids [] js = js
remove_ids (i ∷ is) js = remove_ids is (remove_id i js)

unfoldable pub delete_all : Downloader → Downloader
delete_all d = record d { tasks = []; wait_tasks = [] }

unfoldable pub delete : TaskFilter → Downloader → Downloader
unfolding delete_all remove_tasks remove_ids
delete f d = if filter_is_empty f then delete_all d else record d {
  tasks = remove_tasks (found f d.tasks) d.tasks;
  wait_tasks = remove_ids (found f d.tasks) d.wait_tasks;
}

unfoldable pub on_done : String → Downloader → Downloader
on_done i d = record d { tasks = put_status i done d.tasks }

unfoldable pub on_error : String → Downloader → Downloader
on_error i d = record d { tasks = put_status i error d.tasks }

module _ (restores : String → Bool) where
  unfoldable pub continue : TaskFilter → Downloader → Downloader × Bool
  continue f d =
      if filter_is_empty f
      then (continue_all restores d, true)
      else if is_empty (found (to_continue f) d.tasks)
      then (d, false)
      else (continue_tasks restores (found (to_continue f) d.tasks) d, true)

  unfoldable pub continue_batch : TaskFilter → Downloader → Downloader
  continue_batch f d =
      if filter_is_empty f
      then continue_all restores d
      else record d { tasks = (start_each restores (found f d.tasks) d.tasks).0 }

-- What can happen to a downloader, but for `ContinueBatch` and a change of the configuration.
pub data Op : Type 0 where
  notified paused_all continued_all deleted_all : Op
  paused continued deleted : TaskFilter → Op
  created finished broke_down : String → Op

module _ (restores : String → Bool) where
  unfoldable pub step : Op → Downloader → Downloader
  step (created i) d = do_create restores (new_task i) d
  step notified d = notify_running restores d
  step paused_all d = pause_all d
  step continued_all d = continue_all restores d
  step deleted_all d = delete_all d
  step (paused f) d = (pause_tasks f d).0
  step (continued f) d = (continue restores f d).0
  step (deleted f) d = delete f d
  step (finished i) d = on_done i d
  step (broke_down i) d = on_error i d

  unfoldable pub run : List Op → Downloader → Downloader
  unfolding step
  run [] d = d
  run (o ∷ os) d = run os (step o d)
