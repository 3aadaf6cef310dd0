-- ===== src/Download/Operations/Bugs.antt =====
-- pkg/download/downloader.go: `notifyRunning` over the limit, and after a waiting task is paused.
use Prim.Native.String.{String}
use text.Mathlib.Text.{◌==◌ as str_eq}
use gopeed_torbox.Base.{
  ◌++◌, ◌≤◌, ◌-◌, refl, not, ◌+◌, ◌<◌, ◌≡◌, ap, ◌∙◌, Bool, true, false, some, List, [], ◌∷◌,
  Bool-cases, inl, inr, arith,
}
use gopeed_torbox.Download.Task.{
  select, Task, TaskFilter, running, pause, running_count, get_task, filter_is_empty,
}
use gopeed_torbox.Download.Operations.{ids_of, pause_tasks}
use gopeed_torbox.Download.Scheduler.{
  continue_each, continue_all, Downloader, is_running_or_done, no_slot, do_start, start_task,
  notify_running,
}

module _ (restores : String → Bool) where
  -- Starting a task that is neither running nor done makes it run.
  get_task-do_start :
      (i : String) (ts : List Task) (t : Task)
      → get_task i ts ≡ some t
      → is_running_or_done t.status ≡ false
      → restores t.id ≡ true
      → (get_task i (do_start restores i ts).0 ≡ some (record t { status = running }))
        × (running_count (do_start restores i ts).0 ≡ running_count ts + 1)
  unfolding get_task do_start start_task running_count
  get_task-do_start i [] t g h r = cc
  get_task-do_start i (u ∷ us) t g h r = elim (Bool-cases (str_eq u.id i)) [
    | inl e ↦ ground arith
    | inr e ↦ ground (arith, get_task-do_start i us t)
  ]

  -- Where more tasks run than are allowed, a notification starts the first waiting task all the
  -- same, if it is neither running nor done and can be restored.
  pub notify_over_limit :
      (d : Downloader) (i : String) (is : List String) (t : Task)
      → d.max_running < running_count d.tasks
      → d.wait_tasks ≡ i ∷ is
      → get_task i d.tasks ≡ some t
      → is_running_or_done t.status ≡ false
      → restores t.id ≡ true
      → running_count (notify_running restores d).tasks ≡ running_count d.tasks + 1
  unfolding notify_running no_slot
  notify_over_limit d i is t over w g h r = ground (arith, get_task-do_start i d.tasks t g h r)

  pause_tasks-wait :
      (f : TaskFilter) (d : Downloader)
      → filter_is_empty f ≡ false
      → ((pause_tasks f d).0.wait_tasks ≡ d.wait_tasks)
        × ((pause_tasks f d).0.max_running ≡ d.max_running)
  unfolding pause_tasks
  pause_tasks-wait f d e = (ground arith, ground arith)

  notify-starts :
      (d : Downloader) (i : String) (is : List String) (t : Task)
      → running_count d.tasks < d.max_running
      → d.wait_tasks ≡ i ∷ is
      → get_task i d.tasks ≡ some t
      → is_running_or_done t.status ≡ false
      → restores t.id ≡ true
      → get_task i (notify_running restores d).tasks ≡ some (record t { status = running })
  unfolding notify_running no_slot
  notify-starts d i is t below w g h r = ground (arith, get_task-do_start i d.tasks t g h r)

  -- A waiting task that a filter has paused runs again at the next notification, if it is the
  -- first of the waiting tasks, a slot is free and its fetcher can be restored.
  pub paused_waiting-runs :
      (f : TaskFilter) (d : Downloader) (i : String) (is : List String) (t : Task)
      → filter_is_empty f ≡ false
      → d.wait_tasks ≡ i ∷ is
      → get_task i (pause_tasks f d).0.tasks ≡ some t
      → t.status ≡ pause
      → running_count (pause_tasks f d).0.tasks < d.max_running
      → restores t.id ≡ true
      → get_task i (notify_running restores (pause_tasks f d).0).tasks
        ≡ some (record t { status = running })
  paused_waiting-runs f d i is t e w g s b r =
      let (k, m) = pause_tasks-wait f d e in
      notify-starts (pause_tasks f d).0 i is t (omega (arith, m, b)) (k ∙ w) g
        (ap is_running_or_done s) r

abbrev pub unfinished : Task → Bool
unfinished t = not (is_running_or_done t.status)

each-ids_of : (ts : List Task) → (continue_each 0 ts).1.1 ≡ ids_of (select unfinished ts)
unfolding continue_each select
each-ids_of [] = refl
each-ids_of (t ∷ ts) = elim (Bool-cases (is_running_or_done t.status)) [
  | inl e ↦ rw (e, continue_each, select) (each-ids_of ts)
  | inr e ↦ rw (e, continue_each, select) (ap (λ is. t.id ∷ is) (each-ids_of ts))
]

-- Where no slot is free, continuing all tasks appends each unfinished one to the waiting tasks,
-- also if it waits already.
pub continue_all-ids_of :
    (restores : String → Bool) (d : Downloader)
    → d.max_running ≤ running_count d.tasks
    → (continue_all restores d).wait_tasks ≡ d.wait_tasks ++ ids_of (select unfinished d.tasks)
unfolding continue_all
continue_all-ids_of restores d h =
    let full : d.max_running - running_count d.tasks ≡ 0 = omega (arith, h) in
    rw full (ap (λ is. d.wait_tasks ++ is) (each-ids_of d.tasks))
