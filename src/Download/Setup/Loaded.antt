-- ===== src/Download/Setup/Loaded.antt =====
-- pkg/download/downloader.go: the tasks of a downloader that was just set up.
use Prim.Native.String.{String}
use gopeed_torbox.Base.{ℕ, ◌≡◌, refl, ◌∙◌, Bool, List, [], ◌∷◌, map, if◌then◌else◌, arith, sum_of}
use gopeed_torbox.Download.Task.{Task, status_eq, running, running_count}
use gopeed_torbox.Download.Operations.{Op, run}
use gopeed_torbox.Download.Operations.Limit.{Within, run-Within}
use gopeed_torbox.Download.Setup.{StoredTask, settled, load_tasks, set_up_tasks, set_up}

abbrev loaded_count : (Task → ℕ) → StoredTask → ℕ
loaded_count f s = if s.has_meta then f (settled s.task) else 0

sum_of-load_tasks :
    (f : Task → ℕ) (ss : List StoredTask)
    → sum_of (λ s. f s.task) (load_tasks ss) ≡ sum_of (loaded_count f) ss
unfolding load_tasks
sum_of-load_tasks f [] = refl
sum_of-load_tasks f (s ∷ ss) = ground (arith, sum_of-load_tasks f ss)

count-sum :
    (ts : List Task)
    → running_count ts ≡ sum_of (λ t. if status_eq t.status running then 1 else 0) ts
unfolding running_count
count-sum [] = refl
count-sum (t ∷ ts) = ground (arith, count-sum ts)

sum_of-map_task :
    (f : Task → ℕ) (ss : List StoredTask)
    → sum_of f (map (λ s. s.task) ss) ≡ sum_of (λ s. f s.task) ss
sum_of-map_task f [] = refl
sum_of-map_task f (s ∷ ss) = ground (arith, sum_of-map_task f ss)

none_runs : (s : StoredTask) → loaded_count (λ t. if status_eq t.status running then 1 else 0) s ≡ 0
unfolding settled
none_runs s = ground arith

sum_of-zero {ℓ} : {A : Type ℓ} (f : A → ℕ) (xs : List A) → ((a : A) → f a ≡ 0) → sum_of f xs ≡ 0
sum_of-zero f [] h = refl
sum_of-zero f (x ∷ xs) h = omega (arith, h x, sum_of-zero f xs h)

module _ (sort : List StoredTask → List StoredTask)
    (reorders : (f : StoredTask → ℕ) (ss : List StoredTask)
      → sum_of f (sort ss) ≡ sum_of f ss) where
  pub sum_of-set_up_tasks :
      (f : Task → ℕ) (ss : List StoredTask)
      → sum_of f (set_up_tasks sort ss) ≡ sum_of (loaded_count f) ss
  unfolding set_up_tasks
  sum_of-set_up_tasks f ss =
      sum_of-map_task f (sort (load_tasks ss))
      ∙ reorders (λ s. f s.task) (load_tasks ss)
      ∙ sum_of-load_tasks f ss

  pub count-set_up : (max : ℕ) (ss : List StoredTask) → running_count (set_up sort max ss).tasks ≡ 0
  unfolding set_up
  count-set_up max ss =
      count-sum (set_up_tasks sort ss)
      ∙ sum_of-set_up_tasks (λ t. if status_eq t.status running then 1 else 0) ss
      ∙ sum_of-zero _ ss none_runs

  -- After Setup from any stored tasks, where the sorting only reorders, and then any list of
  -- creations, pauses, continues, deletions, notifications, ends and failures of tasks, each taken
  -- as one step, at most `MaxRunning` tasks run. `ContinueBatch` and changes of the configuration
  -- are not among these operations.
  pub set_up-Within :
      (restores : String → Bool) (ops : List Op) (max : ℕ) (ss : List StoredTask)
      → Within (run restores ops (set_up sort max ss))
  set_up-Within restores ops max ss =
      run-Within restores ops (set_up sort max ss) (omega (arith, count-set_up max ss))
