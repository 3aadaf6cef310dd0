-- ===== src/Download/ExtractQueue.antt =====
-- pkg/download/extract_queue.go: the queue that runs one extraction at a time. Each operation changes
-- the queue in one stretch under its lock, so it is one step; the worker's steps are the stretches
-- between its waits and around `Execute`, which it calls without the lock.
pub mod Order
pub mod Fates
pub mod Work
use Prim.Native.String.{String}
use text.Mathlib.Text.{◌==◌ as str_eq}
use gopeed_torbox.Base.{ℕ, Bool, true, false, not, ◌||◌, List, [], ◌∷◌, ◌++◌, if◌then◌else◌, length}

-- `has_execute` is `Execute != nil`.
pub record ExtractionJob : Type 0 where
  pub id : String
  pub has_execute : Bool

pub data Worker : Type 0 where
  absent waiting : Worker
  executing : ExtractionJob → Worker

-- `executed` lists the jobs whose `Execute` has returned, and `finished` those whose `done` channel
-- is closed, in the order in which that came to pass.
pub record ExtractionQueue : Type 0 where
  pub jobs : List ExtractionJob
  pub running : Bool
  pub shutdown : Bool
  pub worker : Worker
  pub executed : List ExtractionJob
  pub finished : List ExtractionJob

unfoldable pub new_extraction_queue : ExtractionQueue
new_extraction_queue = record {
  jobs = [];
  running = false;
  shutdown = false;
  worker = absent;
  executed = [];
  finished = [];
}

unfoldable pub start : ExtractionQueue → ExtractionQueue
start q = if q.running then q else record q { running = true; shutdown = false; worker = waiting }

-- `Stop` up to the wait for the worker.
unfoldable pub stop : ExtractionQueue → ExtractionQueue
stop q = if q.running then record q { shutdown = true } else q

unfoldable pub enqueue : ExtractionJob → ExtractionQueue → ExtractionQueue
enqueue j q =
    if q.shutdown
    then record q { finished = q.finished ++ j ∷ [] }
    else record q { jobs = q.jobs ++ j ∷ [] }

unfoldable pub queue_length : ExtractionQueue → ℕ
queue_length q = length q.jobs

unfoldable pub has_job : String → List ExtractionJob → Bool
has_job i [] = false
has_job i (j ∷ js) = str_eq j.id i || has_job i js

unfoldable pub has_pending_job : String → ExtractionQueue → Bool
unfolding has_job
has_pending_job i q = has_job i q.jobs

-- The first job with an ID, and the jobs without it.
unfoldable pub first_job : String → List ExtractionJob → List ExtractionJob
first_job i [] = []
first_job i (j ∷ js) = if str_eq j.id i then j ∷ [] else first_job i js

unfoldable pub without_job : String → List ExtractionJob → List ExtractionJob
without_job i [] = []
without_job i (j ∷ js) = if str_eq j.id i then js else j ∷ without_job i js

unfoldable pub remove_pending_job : String → ExtractionQueue → ExtractionQueue × Bool
unfolding has_job first_job without_job
remove_pending_job i q = (
  record q { finished = q.finished ++ first_job i q.jobs; jobs = without_job i q.jobs },
  has_job i q.jobs,
)

-- `Execute`, if the job has one.
unfoldable pub execute : ExtractionJob → List ExtractionJob
execute j = if j.has_execute then j ∷ [] else []

-- One round of the worker's loop, in two steps: what it does with the lock, and the job. Without a
-- job and a shutdown it waits.
unfoldable pub take_job : List ExtractionJob → ExtractionQueue → ExtractionQueue
take_job [] q = q
take_job (j ∷ js) q = record q { jobs = js; worker = executing j }

unfoldable pub lock_step : ExtractionQueue → ExtractionQueue
unfolding take_job
lock_step q =
    if q.shutdown
    then record q { finished = q.finished ++ q.jobs; jobs = []; running = false; worker = absent }
    else take_job q.jobs q

unfoldable pub job_step : ExtractionJob → ExtractionQueue → ExtractionQueue
unfolding execute
job_step j q = record q {
  executed = q.executed ++ execute j;
  finished = q.finished ++ j ∷ [];
  worker = waiting;
}

unfoldable pub worker_in : Worker → ExtractionQueue → ExtractionQueue
unfolding lock_step job_step
worker_in absent q = q
worker_in waiting q = lock_step q
worker_in (executing j) q = job_step j q

unfoldable pub worker_step : ExtractionQueue → ExtractionQueue
unfolding worker_in
worker_step q = worker_in q.worker q

pub data Op : Type 0 where
  started stopped worked : Op
  enqueued : ExtractionJob → Op
  removed : String → Op

unfoldable pub step : Op → ExtractionQueue → ExtractionQueue
unfolding start stop worker_step enqueue remove_pending_job
step started q = start q
step stopped q = stop q
step worked q = worker_step q
step (enqueued j) q = enqueue j q
step (removed i) q = (remove_pending_job i q).0

unfoldable pub run : List Op → ExtractionQueue → ExtractionQueue
unfolding step
run [] q = q
run (o ∷ os) q = run os (step o q)

-- The jobs that a history enqueues.
unfoldable pub enqueues : Op → List ExtractionJob
enqueues (enqueued j) = j ∷ []
enqueues _ = []

unfoldable pub arrivals : List Op → List ExtractionJob
unfolding enqueues
arrivals [] = []
arrivals (o ∷ os) = enqueues o ++ arrivals os

-- The job that the worker executes, if any.
abbrev pub in_hand : Worker → List ExtractionJob
in_hand (executing j) = j ∷ []
in_hand _ = []
