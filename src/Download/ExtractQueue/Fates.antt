-- ===== src/Download/ExtractQueue/Fates.antt =====
-- pkg/download/extract_queue.go: what becomes of the jobs.
use Prim.Native.String.{String}
use gopeed_torbox.Base.{
  ℕ, ◌+◌, ◌≡◌, refl, ap, sym, ◌∙◌, Bool, true, false, List, [], ◌∷◌, sum_of, sum_of-append,
  Bool-cases, inl, inr, arith,
}
use gopeed_torbox.Download.ExtractQueue.{
  ExtractionJob, ExtractionQueue, Worker, absent, waiting, executing, new_extraction_queue, start,
  stop, enqueue, first_job, without_job, remove_pending_job, take_job, lock_step, job_step,
  worker_in, worker_step, Op, started, stopped, worked, enqueued, removed, step, run, enqueues,
  arrivals, in_hand,
}

-- The worker is there exactly while the queue runs.
abbrev pub present : Worker → Bool
present absent = false
present _ = true

pub in_hand-absent : (w : Worker) → present w ≡ false → in_hand w ≡ []
in_hand-absent absent e = refl
in_hand-absent waiting e = refl
in_hand-absent (executing j) e = cc

abbrev pub Manned : ExtractionQueue → Type 0
Manned q = present q.worker ≡ q.running

take-Manned :
    (js : List ExtractionJob) (q : ExtractionQueue)
    → q.worker ≡ waiting
    → Manned q
    → Manned (take_job js q)
unfolding take_job
take-Manned [] q e m = m
take-Manned (j ∷ js) q e m = sym (ap present e) ∙ m

work-Manned_at :
    (w : Worker) (q : ExtractionQueue) → q.worker ≡ w → Manned q → Manned (worker_in w q)
unfolding worker_in lock_step job_step
work-Manned_at absent q e m = m
work-Manned_at waiting q e m = elim (Bool-cases q.shutdown) [
  | inl s ↦ rw s refl
  | inr s ↦ simp s (take-Manned q.jobs q e m)
]
work-Manned_at (executing j) q e m = sym (ap present e) ∙ m

pub step-Manned : (o : Op) (q : ExtractionQueue) → Manned q → Manned (step o q)
unfolding step start stop enqueue remove_pending_job worker_step
step-Manned started q m = ground (arith, m)
step-Manned stopped q m = ground (arith, m)
step-Manned worked q m = work-Manned_at q.worker q refl m
step-Manned (enqueued j) q m = ground (arith, m)
step-Manned (removed i) q m = m

module _ (f : ExtractionJob → ℕ) where
  -- The weight of the jobs that have arrived, by where they are now.
  abbrev pub weight : ExtractionQueue → ℕ
  weight q = sum_of f q.finished + (sum_of f (in_hand q.worker) + sum_of f q.jobs)

  first-without :
      (i : String) (js : List ExtractionJob)
      → sum_of f (first_job i js) + sum_of f (without_job i js) ≡ sum_of f js
  unfolding first_job without_job
  first-without i [] = refl
  first-without i (j ∷ js) = ground (arith, first-without i js)

  take-weight :
      (js : List ExtractionJob) (q : ExtractionQueue)
      → q.jobs ≡ js
      → q.worker ≡ waiting
      → weight (take_job js q) ≡ weight q
  unfolding take_job
  take-weight [] q e w = refl
  take-weight (j ∷ js) q e w = rw (e, w) (omega arith)

  work-weight :
      (w : Worker) (q : ExtractionQueue) → q.worker ≡ w → weight (worker_in w q) ≡ weight q
  unfolding worker_in lock_step job_step
  work-weight absent q e = refl
  work-weight waiting q e = elim (Bool-cases q.shutdown) [
    | inl s ↦ rw (s, e) (omega (arith, sum_of-append f q.finished q.jobs))
    | inr s ↦ simp s (take-weight q.jobs q refl e)
  ]
  work-weight (executing j) q e = rw e (omega (arith, sum_of-append f q.finished (j ∷ [])))

  start-weight : (q : ExtractionQueue) → Manned q → weight (start q) ≡ weight q
  unfolding start
  start-weight q m = elim (Bool-cases q.running) [
    | inl r ↦ simp r refl
    | inr r ↦ simp (r, in_hand-absent q.worker (m ∙ r)) refl
  ]

  step-weight :
      (o : Op) (q : ExtractionQueue)
      → Manned q
      → weight (step o q) ≡ weight q + sum_of f (enqueues o)
  unfolding step stop enqueue remove_pending_job worker_step enqueues
  step-weight started q m = omega (arith, start-weight q m)
  step-weight stopped q m = ground arith
  step-weight worked q m = omega (arith, work-weight q.worker q refl)
  step-weight (enqueued j) q m =
      ground (arith, sum_of-append f q.finished (j ∷ []), sum_of-append f q.jobs (j ∷ []))
  step-weight (removed i) q m =
      omega (arith, sum_of-append f q.finished (first_job i q.jobs), first-without i q.jobs)

  run-weight :
      (os : List Op) (q : ExtractionQueue)
      → Manned q
      → weight (run os q) ≡ weight q + sum_of f (arrivals os)
  unfolding run arrivals
  run-weight [] q m = omega arith
  run-weight (o ∷ os) q m = omega (
    arith,
    run-weight os (step o q) (step-Manned o q m),
    step-weight o q m,
    sum_of-append f (enqueues o) (arrivals os),
  )

  -- After any history of a new queue, whatever a function counts of the jobs that arrived is what
  -- it counts of those finished, in the worker's hand and pending.
  pub run-new_weight :
      (os : List Op) → weight (run os new_extraction_queue) ≡ sum_of f (arrivals os)
  unfolding new_extraction_queue
  run-new_weight os = omega (arith, run-weight os new_extraction_queue refl)
