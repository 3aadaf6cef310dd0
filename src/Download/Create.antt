-- ===== src/Download/Create.antt =====
-- pkg/download/downloader.go: `Resolve`, `Create`, `CreateDirect`, `CreateDirectBatch` and the options
-- of a new task. The fetchers, the extensions' answer to a resolve, the storage's, the clock's and the
-- path matching's part are parameters; a new ID is an argument.
pub mod Options
pub mod Batch
use Prim.Native.String.{String}
use text.Mathlib.Text.{◌==◌ as str_eq}
use gopeed_torbox.Base.{
  ℕ, Bool, true, false, not, ◌&&◌, ◌||◌, Option, none, some, List, [], ◌∷◌, if◌then◌else◌, Assoc,
  lookup, insert, without,
}
use gopeed_torbox.Download.Task.{new_task, is_empty}
use gopeed_torbox.Download.Scheduler.{Downloader, do_create}

pub record TaskOptions : Type 0 where
  pub name : String
  pub path : String
  pub select_files : Option (List ℕ)

-- What `ReplacePathPlaceholders` reads of the clock, printed.
pub record Today : Type 0 where
  pub year : String
  pub month : String
  pub day : String
  pub date : String

-- `replace` is `strings.ReplaceAll`.
unfoldable pub replace_path_placeholders :
    (String → String → String → String) → Today → String → String
replace_path_placeholders replace now path =
    if str_eq path ""
    then ""
    else replace
        (replace (replace (replace path "%year%" now.year) "%month%" now.month) "%day%" now.day)
        "%date%" now.date

-- The loop over the white list; `glob` is `filepath.Match`, and `none` an error of it.
unfoldable pub in_white_list : (String → String → Option Bool) → List String → String → Bool
in_white_list glob [] path = false
in_white_list glob (dir ∷ dirs) path = elim (glob dir path) [
  | some true ↦ true
  | some false ↦ in_white_list glob dirs path
  | none ↦ in_white_list glob dirs path
]

unfoldable pub empty_options : TaskOptions
empty_options = record { name = ""; path = ""; select_files = none }

unfoldable pub given_options : Option TaskOptions → TaskOptions
unfolding empty_options
given_options none = empty_options
given_options (some o) = o

abbrev pub some_files : Option (List ℕ) → Option (List ℕ)
some_files none = some []
some_files (some fs) = some fs

module _ (replace : String → String → String → String) (now : Today)
    (glob : String → String → Option Bool) (download_dir : String) (white_dirs : List String) where
  unfoldable pub filled_options : Option TaskOptions → TaskOptions
  unfolding replace_path_placeholders given_options
  filled_options opts =
      let o = given_options opts in
      record o {
        select_files = some_files o.select_files;
        path =
            replace_path_placeholders replace now
              (if str_eq o.path "" then download_dir else o.path);
      }

  -- An error is `none`.
  unfoldable pub init_options : Option TaskOptions → Option TaskOptions
  unfolding filled_options in_white_list
  init_options opts =
      let o = filled_options opts in
      if not (is_empty white_dirs) && not (in_white_list glob white_dirs o.path)
      then none
      else some o

-- The fetchers that were resolved and wait for `Create`, and the downloader's tasks.
pub record Session (F : Type 0) : Type 0 where
  pub fetcher_cache : Assoc F
  pub downloader : Downloader

-- A result: a value or an error.
pub data Result (A : Type 0) : Type 0 where
  ok : A → Result A
  failed : Result A

pub record ResolveResult (R : Type 0) : Type 0 where
  pub id : Option String
  pub res : R

abbrev pub opts_or : Option TaskOptions → Option TaskOptions → Option TaskOptions
opts_or none common = common
opts_or (some o) common = some o

abbrev pub cons_id : String → Result (List String) → Result (List String)
cons_id i (ok is) = ok (i ∷ is)
cons_id i failed = failed

module _ {F R : Type 0} (on_resolve : String → Result (Option R))
    (build_fetcher : String → Option F) (resolve_fetcher : F → TaskOptions → Option (F × R))
    (options : Option TaskOptions → Option TaskOptions) where
  abbrev pub cache_fetcher :
      String → Option (F × R) → Session F → Result (ResolveResult R) × Session F
  cache_fetcher i none s = (failed, s)
  cache_fetcher i (some (g, r)) s = (
    ok (record { id = some i; res = r }),
    record s { fetcher_cache = insert i g s.fetcher_cache },
  )

  abbrev pub resolve_with :
      String → Option F → Option TaskOptions → Session F → Result (ResolveResult R) × Session F
  resolve_with i none o s = (failed, s)
  resolve_with i (some f) none s = (failed, s)
  resolve_with i (some f) (some o) s = cache_fetcher i (resolve_fetcher f o) s

  -- A resource of the extensions has no ID and is not cached.
  abbrev pub resolve_after :
      String
      → String
      → Option TaskOptions
      → Result (Option R)
      → Session F
      → Result (ResolveResult R) × Session F
  resolve_after i url opts failed s = (failed, s)
  resolve_after i url opts (ok (some r)) s = (ok (record { id = none; res = r }), s)
  resolve_after i url opts (ok none) s = resolve_with i (build_fetcher url) (options opts) s

  unfoldable pub resolve :
      String → String → Option TaskOptions → Session F → Result (ResolveResult R) × Session F
  resolve i url opts s = resolve_after i url opts (on_resolve url) s

module _ {F : Type 0} (build_fetcher : String → Option F) (puts : String → Bool)
    (restores : String → Bool) (options : Option TaskOptions → Option TaskOptions) where
  -- `doCreate` up to the list of the tasks, and the rest of it. `i` is the ID of the new task.
  unfoldable pub create_task : String → Session F → Result String × Session F
  create_task i s =
      if puts i
      then (ok i, record s { downloader = do_create restores (new_task i) s.downloader })
      else (failed, s)

  abbrev pub create_cached : String → String → Option F → Session F → Result String × Session F
  create_cached rr i none s = (failed, s)
  create_cached rr i (some f) s =
      let (r, t) = create_task i s in (r, record t { fetcher_cache = without rr t.fetcher_cache })

  unfoldable pub create : String → String → Session F → Result String × Session F
  unfolding create_task
  create rr i s = create_cached rr i (lookup rr s.fetcher_cache) s

  abbrev pub create_with :
      String → Option F → Option TaskOptions → Session F → Result String × Session F
  create_with i none o s = (failed, s)
  create_with i (some f) none s = (failed, s)
  create_with i (some f) (some o) s = create_task i s

  unfoldable pub create_direct :
      String → String → Option TaskOptions → Session F → Result String × Session F
  unfolding create_task
  create_direct i url opts s = create_with i (build_fetcher url) (options opts) s

  -- The rest of the batch, after one request.
  abbrev pub batch_next :
      (Session F → Result (List String) × Session F)
      → Result String × Session F
      → Result (List String) × Session F
  batch_next rest (failed, t) = (failed, t)
  batch_next rest (ok j, t) = (cons_id j (rest t).0, (rest t).1)

  -- The requests of a batch, each with the ID of its task, its URL and its options.
  unfoldable pub create_direct_batch :
      Option TaskOptions
      → List (String × String × Option TaskOptions)
      → Session F
      → Result (List String) × Session F
  unfolding create_direct
  create_direct_batch common [] s = (ok [], s)
  create_direct_batch common ((i, url, opts) ∷ rest) s =
      batch_next (create_direct_batch common rest) (create_direct i url (opts_or opts common) s)
