-- ===== src/Rest/Api.antt =====
-- pkg/rest/api.go: the requests on tasks, over the downloader's tasks. A request comes with its ID or its
-- filter, whose statuses are taken to be known ones; whether its form could be parsed is a part of it.
pub mod Limit
use Prim.Native.String.{String}
use text.Mathlib.Text.{◌==◌ as str_eq}
use gopeed_torbox.Base.{Bool, true, false, Option, none, some, List, [], ◌∷◌, if◌then◌else◌}
use gopeed_torbox.Download.Task.{Task, TaskFilter, Status, get_task, get_tasks_by_filter}
use gopeed_torbox.Download.Scheduler.{Downloader}
use gopeed_torbox.Download.Operations.{pause_tasks, continue, delete}

-- pkg/rest/model: `RespCode`
pub data RespCode : Type 0 where
  code_ok code_error code_unauthorized code_invalid_param code_task_not_found : RespCode

pub data Answer : Type 0 where
  nil_result : Answer
  error_result : RespCode → Answer
  one_task : Task → Answer
  many_tasks : List Task → Answer

-- The form of a request; `none` is an error of `ParseForm`.
pub record Form : Type 0 where
  pub id : List String
  pub status : List Status
  pub not_status : List Status

pub data ApiRequest : Type 0 where
  pause_one continue_one delete_one get_one : String → ApiRequest
  pause_many continue_many delete_many get_many : Option Form → ApiRequest

abbrev pub Parsed : Type 0
Parsed = Option TaskFilter × RespCode

unfoldable pub parse_id_filter : String → Parsed
parse_id_filter i =
    if str_eq i ""
    then (none, code_invalid_param)
    else (some (record { ids = i ∷ []; statuses = []; not_statuses = [] }), code_ok)

unfoldable pub parse_filter : Option Form → Parsed
parse_filter none = (none, code_error)
parse_filter (some f) =
    (some (record { ids = f.id; statuses = f.status; not_statuses = f.not_status }), code_ok)

abbrev pub answer_of : Bool → Answer
answer_of true = nil_result
answer_of false = error_result code_error

module _ (restores : String → Bool) where
  abbrev pub pause_with : Parsed → Downloader → Downloader × Answer
  pause_with (none, c) d = (d, error_result c)
  pause_with (some f, c) d = ((pause_tasks f d).0, answer_of (pause_tasks f d).1)

  abbrev pub continue_with : Parsed → Downloader → Downloader × Answer
  continue_with (none, c) d = (d, error_result c)
  continue_with (some f, c) d = ((continue restores f d).0, answer_of (continue restores f d).1)

  abbrev pub delete_with : Parsed → Downloader → Downloader × Answer
  delete_with (none, c) d = (d, error_result c)
  delete_with (some f, c) d = (delete f d, nil_result)

  abbrev pub get_with : Parsed → Downloader → Downloader × Answer
  get_with (none, c) d = (d, error_result c)
  get_with (some f, c) d = (d, many_tasks (get_tasks_by_filter (some f) d.tasks))

  abbrev pub found_answer : Option Task → Answer
  found_answer none = error_result code_task_not_found
  found_answer (some t) = one_task t

  unfoldable pub serve : ApiRequest → Downloader → Downloader × Answer
  unfolding parse_id_filter parse_filter
  serve (pause_one i) d = pause_with (parse_id_filter i) d
  serve (pause_many f) d = pause_with (parse_filter f) d
  serve (continue_one i) d = continue_with (parse_id_filter i) d
  serve (continue_many f) d = continue_with (parse_filter f) d
  serve (delete_one i) d = delete_with (parse_id_filter i) d
  serve (delete_many f) d = delete_with (parse_filter f) d
  serve (get_one i) d =
      if str_eq i ""
      then (d, error_result code_invalid_param)
      else (d, found_answer (get_task i d.tasks))
  serve (get_many f) d = get_with (parse_filter f) d

  unfoldable pub serve_all : List ApiRequest → Downloader → Downloader
  unfolding serve
  serve_all [] d = d
  serve_all (r ∷ rs) d = serve_all rs (serve r d).0
