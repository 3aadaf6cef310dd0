-- ===== src/Download/ExtractQueue/Order.antt =====
-- pkg/download/extract_queue.go: the order in which jobs are executed.
use Prim.Native.String.{String}
use text.Mathlib.Text.{◌==◌ as str_eq}
use gopeed_torbox.Base.{
  ◌≡◌, refl, sym, ◌∙◌, List, [], ◌∷◌, ◌++◌, append_assoc, append-nil, Bool-cases, inl, inr,
}
use gopeed_torbox.Download.ExtractQueue.{
  ExtractionJob, ExtractionQueue, Worker, absent, waiting, executing, new_extraction_queue, start,
  stop, enqueue, execute, without_job, remove_pending_job, take_job, lock_step, job_step, worker_in,
  worker_step, Op, started, stopped, worked, enqueued, removed, step, run, enqueues, arrivals,
  in_hand,
}
use gopeed_torbox.Download.ExtractQueue.Fates.{Manned, in_hand-absent, step-Manned}

-- `Sublist xs ys`: `xs` is `ys` with some members left out.
pub data Sublist {ℓ} {A : Type ℓ} : List A → List A → Type ℓ where
  nothing : Sublist [] []
  skip : {x : A} {xs ys : List A} → Sublist xs ys → Sublist xs (x ∷ ys)
  keep : {x : A} {xs ys : List A} → Sublist xs ys → Sublist (x ∷ xs) (x ∷ ys)

module _ {ℓ} {A : Type ℓ} where
  whole : (xs : List A) → Sublist xs xs
  whole [] = nothing
  whole (x ∷ xs) = keep (whole xs)

  none_of : (xs : List A) → Sublist [] xs
  none_of [] = nothing
  none_of (x ∷ xs) = skip (none_of xs)

  both : {ws bs xs ys : List A} → Sublist ws bs → Sublist xs ys → Sublist (ws ++ xs) (bs ++ ys)
  both nothing t = t
  both (skip s) t = skip (both s t)
  both (keep s) t = keep (both s t)

  -- Transitivity, the longer list first.
  within : {ys zs xs : List A} → Sublist ys zs → Sublist xs ys → Sublist xs zs
  within nothing s = s
  within (skip t) s = skip (within t s)
  within (keep t) (skip s) = skip (within t s)
  within (keep t) (keep s) = keep (within t s)

  grow : (xs ys : List A) → Sublist xs (xs ++ ys)
  grow [] ys = none_of ys
  grow (x ∷ xs) ys = keep (grow xs ys)

-- What has been executed, is, or is to be.
abbrev pub line : ExtractionQueue → List ExtractionJob
line q = q.executed ++ (in_hand q.worker ++ q.jobs)

without-Sublist : (i : String) (js : List ExtractionJob) → Sublist (without_job i js) js
unfolding without_job
without-Sublist i [] = nothing
without-Sublist i (j ∷ js) = elim (Bool-cases (str_eq j.id i)) [
  | inl e ↦ rw e (skip (whole js))
  | inr e ↦ rw e (keep (without-Sublist i js))
]

execute-Sublist : (j : ExtractionJob) → Sublist (execute j) (j ∷ [])
unfolding execute
execute-Sublist j = elim (Bool-cases j.has_execute) [
  | inl e ↦ simp e (whole (j ∷ []))
  | inr e ↦ simp e (none_of (j ∷ []))
]

take-line :
    (js : List ExtractionJob) (q : ExtractionQueue)
    → q.jobs ≡ js
    → q.worker ≡ waiting
    → Sublist (line (take_job js q)) (line q)
unfolding take_job
take-line [] q e w = whole (line q)
take-line (j ∷ js) q e w = rw (e, w) (whole (q.executed ++ j ∷ js))

work-line :
    (w : Worker) (q : ExtractionQueue) → q.worker ≡ w → Sublist (line (worker_in w q)) (line q)
unfolding worker_in lock_step job_step
work-line absent q e = whole (line q)
work-line waiting q e = elim (Bool-cases q.shutdown) [
  | inl s ↦ rw (s, e) (both (whole q.executed) (none_of q.jobs))
  | inr s ↦ simp s (take-line q.jobs q refl e)
]
work-line (executing j) q e =
    rw (e, append_assoc q.executed (execute j) q.jobs)
      (both (whole q.executed) (both (execute-Sublist j) (whole q.jobs)))

start-line : (q : ExtractionQueue) → Manned q → Sublist (line (start q)) (line q)
unfolding start
start-line q m = elim (Bool-cases q.running) [
  | inl r ↦ simp r (whole (line q))
  | inr r ↦ simp (r, in_hand-absent q.worker (m ∙ r)) (whole (q.executed ++ q.jobs))
]

stop-line : (q : ExtractionQueue) → Sublist (line (stop q)) (line q)
unfolding stop
stop-line q = elim (Bool-cases q.running) [
  | inl r ↦ simp r (whole (line q))
  | inr r ↦ simp r (whole (line q))
]

append-line :
    (es bs cs ds : List ExtractionJob) → es ++ (bs ++ (cs ++ ds)) ≡ (es ++ (bs ++ cs)) ++ ds
append-line es bs cs ds = simp (append_assoc es (bs ++ cs) ds, append_assoc bs cs ds) refl

enqueue-line :
    (j : ExtractionJob) (q : ExtractionQueue) → Sublist (line (enqueue j q)) (line q ++ j ∷ [])
unfolding enqueue
enqueue-line j q = elim (Bool-cases q.shutdown) [
  | inl r ↦ simp r (grow (line q) (j ∷ []))
  | inr r ↦
      simp (r, append-line q.executed (in_hand q.worker) q.jobs (j ∷ [])) (whole (line q ++ j ∷ []))
]

step-line :
    (o : Op) (q : ExtractionQueue) → Manned q → Sublist (line (step o q)) (line q ++ enqueues o)
unfolding step stop enqueue remove_pending_job worker_step enqueues
step-line started q m = rw (append-nil (line q)) (start-line q m)
step-line stopped q m = rw (append-nil (line q)) (stop-line q)
step-line worked q m = rw (append-nil (line q)) (work-line q.worker q refl)
step-line (enqueued j) q m = enqueue-line j q
step-line (removed i) q m =
    rw (append-nil (line q))
      (both (whole q.executed) (both (whole (in_hand q.worker)) (without-Sublist i q.jobs)))

run-line :
    (os : List Op) (q : ExtractionQueue)
    → Manned q
    → Sublist (line (run os q)) (line q ++ arrivals os)
unfolding run arrivals
run-line [] q m = rw (append-nil (line q)) (whole (line q))
run-line (o ∷ os) q m =
    within
      (rw (sym (append_assoc (line q) (enqueues o) (arrivals os)))
        (both (step-line o q m) (whole (arrivals os))))
      (run-line os (step o q) (step-Manned o q m))

-- After any history of a new queue, the executed jobs, the one in the worker's hand and the
-- pending ones stand, in this order, in the order in which they arrived; jobs can be left out, but
-- none overtakes another.
pub run-new_line : (os : List Op) → Sublist (line (run os new_extraction_queue)) (arrivals os)
unfolding new_extraction_queue
run-new_line os = run-line os new_extraction_queue refl
