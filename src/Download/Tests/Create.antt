-- ===== src/Download/Tests/Create.antt =====
-- Examples for the creation of tasks and their progress.
use Prim.Native.String.{String}
use text.Mathlib.Text.{◌==◌ as str_eq}
use gopeed_torbox.Base.{ℕ, ◌≡◌, refl, Bool, true, Option, none, some, List, [], ◌∷◌, if◌then◌else◌}
use gopeed_torbox.Download.Create.{
  TaskOptions, Today, Session, filled_options, init_options, in_white_list,
  replace_path_placeholders, empty_options, given_options, create_direct_batch, failed,
}
use gopeed_torbox.Download.Create.Options.{Listed, init_options-Listed}
use gopeed_torbox.Download.Create.Batch.{batch-created, creatable, creatable_count, ids_of_tasks}

abbrev no_replace : String → String → String → String
no_replace s a b = s

abbrev today : Today
today = record { year = "2025"; month = "01"; day = "02"; date = "2025-01-02" }

abbrev same_path : String → String → Option Bool
same_path d p = some (str_eq d p)

abbrev given : TaskOptions
given = record { name = ""; path = "/b"; select_files = some [] }

init_options-Listed_example : Listed same_path ("/a" ∷ "/b" ∷ []) given.path
unfolding init_options filled_options given_options in_white_list replace_path_placeholders
init_options-Listed_example =
    init_options-Listed same_path no_replace today "/a" "/a" ("/b" ∷ []) (some given) given refl

abbrev builds : String → Option ℕ
builds url = if str_eq url "bad" then none else some 1

abbrev always : String → Bool
always i = true

abbrev keep_options : Option TaskOptions → Option TaskOptions
unfolding empty_options
keep_options none = some empty_options
keep_options (some o) = some o

abbrev session : Session ℕ
session = record {
  fetcher_cache = [];
  downloader = record { max_running = 5; tasks = []; wait_tasks = [] };
}

abbrev some_samples : List ℕ
some_samples = 5 ∷ 6 ∷ 7 ∷ []

-- The second request has a URL for which no fetcher can be built.
abbrev batch : List (String × String × Option TaskOptions)
batch = ("a", "u", none) ∷ ("b", "bad", none) ∷ ("c", "v", none) ∷ []

batch-created_example :
    (ids_of_tasks
        (create_direct_batch builds always always keep_options none batch
          session).1.downloader.tasks
      ≡ "a" ∷ [])
    × ((create_direct_batch builds always always keep_options none batch session).0 ≡ failed)
unfolding creatable_count creatable keep_options
batch-created_example = batch-created builds always always keep_options none batch session
