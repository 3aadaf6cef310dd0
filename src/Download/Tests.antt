-- ===== src/Download/Tests.antt =====
-- Examples for the downloader.
mod Archives
mod Persist
mod Setup
mod Removal
mod Extraction
mod Create
use Prim.Native.String.{String}
use gopeed_torbox.Base.{◌++◌, ◌+◌, ◌≡◌, refl, Bool, true, false, some, List, [], ◌∷◌, arith, sum_of}
use gopeed_torbox.Download.Task.{
  pause, filter_is_empty, get_tasks_by_filter, select, matches, TaskFilter, running, wait, get_task,
  running_count,
}
use gopeed_torbox.Download.Scheduler.{continue_all, pause_each, Downloader, notify_running}
use gopeed_torbox.Download.Operations.{
  ids_of, pause_tasks, Op, created, notified, paused, continued, finished, run,
}
use gopeed_torbox.Download.Operations.Limit.{Within, run-Within}
use gopeed_torbox.Download.Operations.Bugs.{
  continue_all-ids_of, unfinished, notify_over_limit, paused_waiting-runs,
}
use gopeed_torbox.Download.ExtractQueue.{
  ExtractionJob, ExtractionQueue, waiting, new_extraction_queue, started, stopped, worked, enqueued,
  removed, arrivals, queue_length,
}
use gopeed_torbox.Download.ExtractQueue as Queue
use gopeed_torbox.Download.ExtractQueue.Fates.{weight, run-new_weight}
use gopeed_torbox.Download.ExtractQueue.Order.{Sublist, line, run-new_line}
use gopeed_torbox.Download.ExtractQueue.Work.{executes, rounds, drain, stop-leaves}

abbrev can_restore : String → Bool
can_restore i = true

abbrev one_slot : Downloader
one_slot = record { max_running = 1; tasks = []; wait_tasks = [] }

abbrev only : String → TaskFilter
only i = record { ids = i ∷ []; statuses = []; not_statuses = [] }

-- Two tasks, the second of which waits, is started in place of the first, and ends.
abbrev some_ops : List Op
some_ops =
    created "a"
    ∷ created "b"
    ∷ continued (only "b")
    ∷ finished "b"
    ∷ notified
    ∷ paused (only "a")
    ∷ []

run-Within_example : Within (run can_restore some_ops one_slot)
unfolding running_count
run-Within_example = run-Within can_restore some_ops one_slot (omega arith)

-- Two tasks run and one waits, when the limit is set to one.
abbrev over_limit : Downloader
over_limit = record {
  max_running = 1;
  tasks =
      record { id = "a"; status = running }
      ∷ record { id = "b"; status = running }
      ∷ record { id = "c"; status = wait }
      ∷ [];
  wait_tasks = "c" ∷ [];
}

-- A task that waits, with a free slot.
abbrev with_waiting : Downloader
with_waiting = record {
  max_running = 1;
  tasks = record { id = "c"; status = wait } ∷ [];
  wait_tasks = "c" ∷ [];
}

abbrev job : String → ExtractionJob
job i = record { id = i; has_execute = true }

abbrev some_jobs : List Queue.Op
some_jobs =
    started
    ∷ enqueued (job "a")
    ∷ enqueued (job "b")
    ∷ worked
    ∷ enqueued (job "c")
    ∷ removed "b"
    ∷ worked
    ∷ []

run-new_weight_example :
    weight (λ j. 1) (Queue.run some_jobs new_extraction_queue)
    ≡ sum_of (λ j. 1) (arrivals some_jobs)
run-new_weight_example = run-new_weight (λ j. 1) some_jobs

run-new_line_example :
    Sublist (line (Queue.run some_jobs new_extraction_queue)) (arrivals some_jobs)
run-new_line_example = run-new_line some_jobs

abbrev two_jobs : ExtractionQueue
two_jobs = record {
  jobs = job "a" ∷ job "b" ∷ [];
  running = true;
  shutdown = false;
  worker = waiting;
  executed = [];
  finished = [];
}

drain_example : Queue.run (rounds (queue_length two_jobs)) two_jobs ≡ record two_jobs {
  jobs = [];
  executed = executes (job "a" ∷ job "b" ∷ []);
  finished = job "a" ∷ job "b" ∷ [];
}
drain_example = drain two_jobs refl refl
