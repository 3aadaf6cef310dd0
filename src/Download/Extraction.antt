-- ===== src/Download/Extraction.antt =====
-- pkg/download/downloader.go: the extraction of a task's archive, from its queueing to its result. A task is
-- found by its ID, where the source keeps a pointer; its `stored` part is what `storage.Put` has kept of
-- it last, and `puts` is whether a Put of a task returns no error, which the source ignores. The archive
-- formats and the file system are parameters.
pub mod Reports
pub mod Settled
use Prim.Native.String.{String, ◌++◌ as text_append}
use text.Mathlib.Text.{◌==◌ as str_eq}
use gopeed_torbox.Base.{
  ℕ, Bool, true, false, not, ◌&&◌, Option, none, some, List, [], ◌∷◌, ◌++◌, map, if◌then◌else◌,
}
use gopeed_torbox.Download.MultiPart.{without_name}

pub data ExtractStatus : Type 0 where
  none_yet queued extracting waiting_parts extract_done extract_error : ExtractStatus

-- The part of a task's progress that is about its archive.
pub record ExtractProgress : Type 0 where
  pub status : ExtractStatus
  pub percent : ℕ
  pub multi_part_base_name : String

pub record ExtractTask : Type 0 where
  pub id : String
  pub progress : ExtractProgress
  pub stored : ExtractProgress

-- `removed` has the files that were deleted, and `claims` the base names in `claimedExtractions`.
pub record Extractions : Type 0 where
  pub tasks : List ExtractTask
  pub removed : List String
  pub claims : List String

abbrev pub with_status : ExtractStatus → ℕ → ExtractProgress → ExtractProgress
with_status s n p = record p { status = s; percent = n }

-- A change of the progress, and one that is stored as well.
abbrev pub shown : (ExtractProgress → ExtractProgress) → ExtractTask → ExtractTask
shown f t = record t { progress = f t.progress }

abbrev pub put_task : (ExtractTask → Bool) → ExtractTask → ExtractTask
put_task puts t = record t { stored = if puts t then t.progress else t.stored }

abbrev pub stored_as :
    (ExtractTask → Bool) → (ExtractProgress → ExtractProgress) → ExtractTask → ExtractTask
stored_as puts f t = put_task puts (shown f t)

unfoldable pub change : String → (ExtractTask → ExtractTask) → List ExtractTask → List ExtractTask
change i f ts = map (λ t. if str_eq t.id i then f t else t) ts

abbrev pub settled_status : Bool → ExtractProgress → ExtractProgress
settled_status true = with_status extract_error 0
settled_status false = with_status extract_done 100

-- The reports of an extraction that runs.
unfoldable pub report_progress : String → List ℕ → Extractions → Extractions
unfolding change
report_progress i [] w = w
report_progress i (n ∷ ns) w =
    report_progress i ns
      (record w { tasks = change i (shown (λ p. record p { percent = n })) w.tasks })

-- `fails` is whether there is an error, and `removable` whether a file can be deleted.
module _ (puts : ExtractTask → Bool) where
  -- `enqueueSingleExtraction`, without the queue: the ID of the job, and the tasks.
  unfoldable pub enqueue_single_extraction : String → Extractions → String × Extractions
  unfolding change
  enqueue_single_extraction i w = (
    text_append "single:" i,
    record w { tasks = change i (stored_as puts (λ p. record p { status = queued })) w.tasks },
  )

  -- The start of an extraction.
  unfoldable pub start_extraction : String → Extractions → Extractions
  unfolding change
  start_extraction i w = record w {
    tasks = change i (stored_as puts (with_status extracting 0)) w.tasks;
  }

  abbrev pub update_related : String → String → Bool → ExtractTask → ExtractTask
  update_related i base fails t =
      if not (str_eq t.id i) && str_eq t.progress.multi_part_base_name base
      then stored_as puts (settled_status fails) t
      else t

  -- `updateMultiPartTasksStatus`, for a source task with this ID and base name.
  unfoldable pub update_multi_part_tasks_status : String → String → Bool → Extractions → Extractions
  update_multi_part_tasks_status i base fails w =
      if str_eq base "" then w else record w { tasks = map (update_related i base fails) w.tasks }

  module _ (removable : String → Bool) where
    unfoldable pub remove_each : List String → List String → List String
    remove_each [] removed = removed
    remove_each (f ∷ fs) removed =
        remove_each fs (if removable f then removed ++ f ∷ [] else removed)

    unfoldable pub handle_extraction_result :
        String → Bool → List String → Bool → Extractions → Extractions
    unfolding change remove_each
    handle_extraction_result i fails archive_files delete_after_extract w =
        if fails
        then record w {
          tasks = change i (stored_as puts (λ p. record p { status = extract_error })) w.tasks;
        }
        else record w {
          tasks = change i (stored_as puts (with_status extract_done 100)) w.tasks;
          removed = if delete_after_extract then remove_each archive_files w.removed else w.removed;
        }

    -- `performExtraction`, for the reports of the extraction and its result.
    unfoldable pub perform_extraction :
        String → String → List ℕ → Bool → Bool → Extractions → Extractions
    unfolding start_extraction report_progress handle_extraction_result
    perform_extraction i archive_path reports fails delete_after_extract w =
        handle_extraction_result i fails (archive_path ∷ []) delete_after_extract
          (report_progress i reports (start_extraction i w))

    -- `performMultiPartExtraction`, for the task with this ID and base name, the base name of the archive
    -- with its directory, and the files of its parts.
    unfoldable pub perform_multi_part_extraction :
        String → String → String → List ℕ → Bool → List String → Bool → Extractions → Extractions
    unfolding start_extraction report_progress handle_extraction_result
        update_multi_part_tasks_status without_name
    perform_multi_part_extraction i base full_base_name reports fails part_files
          delete_after_extract w =
        let ended = update_multi_part_tasks_status i base fails (
          handle_extraction_result i fails part_files delete_after_extract
            (report_progress i reports (start_extraction i w))) in
        record ended { claims = without_name full_base_name ended.claims }
