-- ===== src/Download/Operations/Limit.antt =====
-- pkg/download/downloader.go: the number of running tasks, and `MaxRunning`.
use Prim.Native.String.{String}
use gopeed_torbox.Base.{
  ℕ, ◌+◌, ◌-◌, ◌≤◌, ◌≡◌, refl, Bool, false, List, [], ◌∷◌, ◌++◌, map, length, arith,
}
use gopeed_torbox.Download.Task.{
  Task, TaskFilter, new_task, running, wait, done, error, status_eq, running_count,
}
use gopeed_torbox.Download.Scheduler.{
  Downloader, no_slot, displace, wait_each, first_ids, later_ids, continue_each, need_running_count,
  pause_task, notify_running, do_create, continue_tasks, continue_all,
}
use gopeed_torbox.Download.Scheduler.Counts.{
  count-append, count-put_status, count-wait_each, count-pause_task, count-pause_each,
  count-displace, length-first_ids, continue_each-room, continue_each-count, count-do_start,
  count-start_each,
}
use gopeed_torbox.Download.Operations.{
  pause_all, pause_tasks, remove_task, remove_tasks, delete_all, delete, on_done, on_error,
  continue, found, to_continue, to_pause, Op, created, notified, paused_all, continued_all,
  deleted_all, paused, continued, deleted, finished, broke_down, step, run,
}

abbrev pub Within : Downloader → Type 0
Within d = running_count d.tasks ≤ d.max_running

count-pause_all : (ts : List Task) → running_count (map pause_task ts) ≡ 0
unfolding running_count
count-pause_all [] = refl
count-pause_all (t ∷ ts) = omega (arith, count-pause_task t, count-pause_all ts)

count-remove_task :
    (i : String) (ts : List Task) → running_count (remove_task i ts) ≤ running_count ts
unfolding remove_task running_count
count-remove_task i [] = omega arith
count-remove_task i (t ∷ ts) = ground (arith, count-remove_task i ts)

count-remove_tasks :
    (is : List String) (ts : List Task) → running_count (remove_tasks is ts) ≤ running_count ts
unfolding remove_tasks
count-remove_tasks [] ts = omega arith
count-remove_tasks (i ∷ is) ts =
    omega (arith, count-remove_tasks is (remove_task i ts), count-remove_task i ts)

pause_tasks-Within : (f : TaskFilter) (d : Downloader) → Within d → Within (pause_tasks f d).0
unfolding pause_tasks pause_all
pause_tasks-Within f d h =
    ground (arith, count-pause_all d.tasks, count-pause_each (found (to_pause f) d.tasks) d.tasks)

idle-count : (t : Task) → status_eq t.status running ≡ false → running_count (t ∷ []) ≡ 0
unfolding running_count
idle-count t h = ground arith

need-le : (d : Downloader) (n : ℕ) → need_running_count d n ≤ d.max_running
unfolding need_running_count
need-le d n = ground arith

delete-Within : (f : TaskFilter) (d : Downloader) → Within d → Within (delete f d)
unfolding delete delete_all running_count
delete-Within f d h = ground (arith, count-remove_tasks (found f d.tasks) d.tasks)

module _ (restores : String → Bool) where
  create-Within :
      (t : Task) (d : Downloader)
      → status_eq t.status running ≡ false
      → Within d
      → Within (do_create restores t d)
  unfolding do_create no_slot
  create-Within t d r h = ground (
    arith,
    idle-count t r,
    count-append d.tasks (t ∷ []),
    count-put_status t.id wait (d.tasks ++ t ∷ []) refl,
    count-do_start restores t.id (d.tasks ++ t ∷ []),
  )

  notify-Within_at :
      (ws : List String) (d : Downloader)
      → d.wait_tasks ≡ ws
      → Within d
      → Within (notify_running restores d)
  unfolding notify_running no_slot
  notify-Within_at [] d e h = ground arith
  notify-Within_at (i ∷ is) d e h = ground (arith, count-do_start restores i d.tasks)

  -- `Continue` first makes room for the tasks that it starts.
  continue_tasks-Within :
      (is : List String) (d : Downloader) → Within d → Within (continue_tasks restores is d)
  unfolding continue_tasks
  continue_tasks-Within is d h =
      let need = need_running_count d (length is) in
      let n = need + running_count d.tasks - d.max_running in
      let moved = displace n d.tasks in
      let waiting = wait_each (later_ids need is) moved.0 in
      omega (
        arith,
        count-start_each restores (first_ids need is) waiting,
        length-first_ids need is,
        count-wait_each (later_ids need is) moved.0,
        count-displace n d.tasks,
        need-le d (length is),
      )

  continue_all-Within : (d : Downloader) → Within d → Within (continue_all restores d)
  unfolding continue_all
  continue_all-Within d h =
      let room = d.max_running - running_count d.tasks in
      let rest = continue_each room d.tasks in
      omega (
        arith,
        count-start_each restores rest.1.0 rest.0,
        continue_each-room room d.tasks,
        continue_each-count room d.tasks,
      )

  continue-Within : (f : TaskFilter) (d : Downloader) → Within d → Within (continue restores f d).0
  unfolding continue
  continue-Within f d h =
      ground
        (arith, continue_all-Within d h, continue_tasks-Within (found (to_continue f) d.tasks) d h)

  pub step-Within : (o : Op) (d : Downloader) → Within d → Within (step restores o d)
  unfolding step pause_all delete_all on_done on_error new_task running_count
  step-Within (created i) d h = create-Within (new_task i) d refl h
  step-Within notified d h = notify-Within_at d.wait_tasks d refl h
  step-Within paused_all d h = omega (arith, count-pause_all d.tasks)
  step-Within continued_all d h = continue_all-Within d h
  step-Within deleted_all d h = omega arith
  step-Within (paused f) d h = pause_tasks-Within f d h
  step-Within (continued f) d h = continue-Within f d h
  step-Within (deleted f) d h = delete-Within f d h
  step-Within (finished i) d h = omega (arith, count-put_status i done d.tasks refl)
  step-Within (broke_down i) d h = omega (arith, count-put_status i error d.tasks refl)

  -- After any history of creations, pauses, continues, deletions, ends and failures of tasks, each
  -- taken as one step, with the notifications at any time between them, at most `MaxRunning` tasks
  -- run, if that was so before. `ContinueBatch` is not among the operations.
  pub run-Within : (os : List Op) (d : Downloader) → Within d → Within (run restores os d)
  unfolding run
  run-Within [] d h = h
  run-Within (o ∷ os) d h = run-Within os (step restores o d) (step-Within o d h)
