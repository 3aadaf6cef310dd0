-- ===== src/Download/Task.antt =====
-- pkg/download/model.go and downloader.go: tasks, filters, and the search for tasks.
use Prim.Native.String.{String}
use text.Mathlib.Text.{◌==◌ as str_eq}
use gopeed_torbox.Base.{
  ℕ, ◌+◌, Bool, true, false, not, ◌&&◌, ◌||◌, Option, none, some, List, [], ◌∷◌, if◌then◌else◌,
}

-- pkg/base/constants.go
pub data Status : Type 0 where
  ready running pause wait error done : Status

abbrev pub status_eq : Status → Status → Bool
status_eq ready ready = true
status_eq running running = true
status_eq pause pause = true
status_eq wait wait = true
status_eq error error = true
status_eq done done = true
status_eq _ _ = false

-- A task by its ID and status; what its fetcher does is not part of the schedule.
pub record Task : Type 0 where
  pub id : String
  pub status : Status

-- `NewTask`; the ID is a random one.
unfoldable pub new_task : String → Task
new_task i = record { id = i; status = ready }

pub record TaskFilter : Type 0 where
  pub ids : List String
  pub statuses : List Status
  pub not_statuses : List Status

abbrev pub is_empty {ℓ} : {A : Type ℓ} → List A → Bool
is_empty [] = true
is_empty (x ∷ xs) = false

unfoldable pub filter_is_empty : TaskFilter → Bool
filter_is_empty f = is_empty f.ids && (is_empty f.statuses && is_empty f.not_statuses)

unfoldable pub has_id : String → List String → Bool
has_id i [] = false
has_id i (j ∷ js) = str_eq i j || has_id i js

unfoldable pub has_status : Status → List Status → Bool
has_status s [] = false
has_status s (t ∷ ts) = status_eq s t || has_status s ts

unfoldable pub id_match : TaskFilter → Task → Bool
unfolding has_id
id_match f t = if is_empty f.ids then true else has_id t.id f.ids

unfoldable pub status_match : TaskFilter → Task → Bool
unfolding has_status
status_match f t = if is_empty f.statuses then true else has_status t.status f.statuses

unfoldable pub not_status_match : TaskFilter → Task → Bool
unfolding has_status
not_status_match f t =
    if is_empty f.not_statuses then true else not (has_status t.status f.not_statuses)

unfoldable pub matches : TaskFilter → Task → Bool
unfolding id_match status_match not_status_match
matches f t = id_match f t && (status_match f t && not_status_match f t)

-- The loop that collects the tasks for which a test holds.
unfoldable pub select : (Task → Bool) → List Task → List Task
select p [] = []
select p (t ∷ ts) = let rest = select p ts in if p t then t ∷ rest else rest

-- `GetTasksByFilter`; `none` is the nil filter.
unfoldable pub get_tasks_by_filter : Option TaskFilter → List Task → List Task
get_tasks_by_filter none tasks = tasks
get_tasks_by_filter (some f) tasks = if filter_is_empty f then tasks else select (matches f) tasks

unfoldable pub get_task : String → List Task → Option Task
get_task i [] = none
get_task i (t ∷ ts) = if str_eq t.id i then some t else get_task i ts

-- `task.Status = s`, at the task with an ID. The source shares one object between its lists.
unfoldable pub put_status : String → Status → List Task → List Task
put_status i s [] = []
put_status i s (t ∷ ts) =
    if str_eq t.id i then record t { status = s } ∷ ts else t ∷ put_status i s ts

unfoldable pub running_count : List Task → ℕ
running_count [] = 0
running_count (t ∷ ts) = (if status_eq t.status running then 1 else 0) + running_count ts
