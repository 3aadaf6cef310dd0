-- ===== src/Download/ExtractQueue/Work.antt =====
-- pkg/download/extract_queue.go: rounds of the worker, with jobs and after `Stop`.
use gopeed_torbox.Base.{
  ℕ, zero, suc, ◌≡◌, refl, ap, sym, ◌∙◌, subst, Bool, true, false, List, [], ◌∷◌, ◌++◌,
  append_assoc, append-nil, length,
}
use gopeed_torbox.Download.ExtractQueue.{
  ExtractionJob, ExtractionQueue, Worker, absent, waiting, executing, stop, queue_length, execute,
  take_job, lock_step, job_step, worker_in, worker_step, Op, stopped, worked, step, run, in_hand,
}
use gopeed_torbox.Download.ExtractQueue.Fates.{Manned, present}

-- The `Execute` calls for these jobs, one after the other.
unfoldable pub executes : List ExtractionJob → List ExtractionJob
executes [] = []
executes (j ∷ js) = execute j ++ executes js

-- `n` rounds of the worker's loop.
unfoldable pub rounds : ℕ → List Op
rounds zero = []
rounds (suc n) = worked ∷ worked ∷ rounds n

at_work : List ExtractionJob → Bool → List ExtractionJob → List ExtractionJob → ExtractionQueue
at_work js r es fs = record {
  jobs = js;
  running = r;
  shutdown = false;
  worker = waiting;
  executed = es;
  finished = fs;
}

drain_at :
    (js : List ExtractionJob) (r : Bool) (es fs : List ExtractionJob)
    → run (rounds (length js)) (at_work js r es fs) ≡ at_work [] r (es ++ executes js) (fs ++ js)
unfolding at_work run rounds step worker_step worker_in lock_step take_job job_step executes
drain_at [] r es fs = rw (append-nil es, append-nil fs) refl
drain_at (j ∷ js) r es fs =
    drain_at js r (es ++ execute j) (fs ++ j ∷ [])
    ∙ rw (append_assoc es (execute j) (executes js), append_assoc fs (j ∷ []) js) refl

-- A worker that waits, with no shutdown, is through with all pending jobs after as many rounds: it
-- has called their `Execute` in the order of the queue, closed their channels, and waits again.
pub drain :
    (q : ExtractionQueue)
    → q.worker ≡ waiting
    → q.shutdown ≡ false
    → run (rounds (queue_length q)) q ≡ record q {
      jobs = [];
      executed = q.executed ++ executes q.jobs;
      finished = q.finished ++ q.jobs;
    }
unfolding queue_length at_work
drain q w s =
    subst
      (λ u. run (rounds (length u.jobs)) u ≡ record u {
        jobs = [];
        executed = u.executed ++ executes u.jobs;
        finished = u.finished ++ u.jobs;
      })
      (λ i. record q { worker = sym w i; shutdown = sym s i })
      (drain_at q.jobs q.running q.executed q.finished)

stop-leaves_at :
    (w : Worker) (q : ExtractionQueue)
    → q.worker ≡ w
    → Manned q
    → q.running ≡ true
    → run (stopped ∷ worked ∷ worked ∷ []) q ≡ record q {
      jobs = [];
      running = false;
      shutdown = true;
      worker = absent;
      executed = q.executed ++ executes (in_hand q.worker);
      finished = q.finished ++ (in_hand q.worker ++ q.jobs);
    }
unfolding run step stop worker_step worker_in lock_step job_step executes
stop-leaves_at absent q e m r = cc (sym (ap present e) ∙ m ∙ r)
stop-leaves_at waiting q e m r = simp (e, r, append-nil q.executed) refl
stop-leaves_at (executing j) q e m r =
    simp (e, r, append_assoc q.finished (j ∷ []) q.jobs, append-nil (execute j)) refl

-- After Stop on a running queue, the worker finishes the job in its hand, closes the channels of
-- the pending jobs without executing them, and leaves.
pub stop-leaves :
    (q : ExtractionQueue)
    → Manned q
    → q.running ≡ true
    → run (stopped ∷ worked ∷ worked ∷ []) q ≡ record q {
      jobs = [];
      running = false;
      shutdown = true;
      worker = absent;
      executed = q.executed ++ executes (in_hand q.worker);
      finished = q.finished ++ (in_hand q.worker ++ q.jobs);
    }
stop-leaves q m r = stop-leaves_at q.worker q refl m r
