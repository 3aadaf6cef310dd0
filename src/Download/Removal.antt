-- ===== src/Download/Removal.antt =====
-- pkg/download/downloader.go: what a deletion of tasks removes from the storage and the disk, the clean-up at
-- the start, and the end of the downloader. The lists of tasks are in `Download.Operations`.
pub mod Gone
use Prim.Native.String.{String}
use text.Mathlib.Text.{◌==◌ as str_eq}
use gopeed_torbox.Base.{
  Bool, true, false, not, ◌&&◌, ◌||◌, Option, none, some, List, [], ◌∷◌, ◌++◌, if◌then◌else◌,
}
use gopeed_torbox.Download.Persist.{bucket_task, bucket_save}
use gopeed_torbox.Download.Storage.Interface.{Storage}

-- A task to be deleted: its fetcher, if it has one, closes without an error or not; with a resource, its
-- folder, if the resource has a name, or else its file is at the path, and can be removed or not.
pub record Victim : Type 0 where
  pub id : String
  pub closes : Option Bool
  pub path : Option String
  pub removable : Bool

-- `removed` has the paths that were removed.
pub record Disk (S : Type 0) : Type 0 where
  pub stored : S
  pub removed : List String

module _ {S : Type 0} where
  -- The result of each step is what there is then, and whether there is no error.
  abbrev pub remove_path : Bool → Bool → Option String → Disk S → Disk S × Bool
  remove_path force removable none w = (w, true)
  remove_path force removable (some path) w =
      if force
      then if removable then (record w { removed = w.removed ++ path ∷ [] }, true) else (w, false)
      else (w, true)

  abbrev pub closed_then : Bool → Victim → Option Bool → Disk S → Disk S × Bool
  closed_then force v none w = remove_path force v.removable v.path w
  closed_then force v (some ok) w =
      if ok then remove_path force v.removable v.path w else (w, false)

module _ {S Z : Type 0} (st : Storage S Z) where
  -- `doDelete`
  unfoldable pub do_delete : Bool → Victim → Disk S → Disk S × Bool
  do_delete force v w = elim (st.deletes bucket_task v.id w.stored) [
    | none ↦ (w, false)
    | some s ↦ elim (st.deletes bucket_save v.id s) [
      | none ↦ (record w { stored = s }, false)
      | some t ↦ closed_then force v v.closes (record w { stored = t })
    ]
  ]

  -- The loop of `Delete` and `deleteAll`, which ends at the first error.
  unfoldable pub delete_each : Bool → List Victim → Disk S → Disk S × Bool
  unfolding do_delete
  delete_each force [] w = (w, true)
  delete_each force (v ∷ vs) w =
      let next = do_delete force v w in
      let rest = delete_each force vs next.0 in if next.1 then rest else next

-- A task in the clean-up: its path, `none` without a resource, and whether there is nothing at the path.
pub record CleanupTarget : Type 0 where
  pub id : String
  pub path : Option String
  pub not_exist : Bool

abbrev pub is_missing : Option String → Bool → Bool
is_missing none not_exist = false
is_missing (some path) not_exist = not (str_eq path "") && not_exist

-- The loop of `cleanupNonExistingTasks`: the tasks that are deleted.
unfoldable pub tasks_to_delete : List CleanupTarget → List String
tasks_to_delete [] = []
tasks_to_delete (t ∷ ts) =
    let rest = tasks_to_delete ts in if is_missing t.path t.not_exist then t.id ∷ rest else rest

-- `none` where nothing is deleted. `enabled` is the setting, `none` an error of the configuration.
unfoldable pub cleanup_non_existing_tasks : Option Bool → List CleanupTarget → List String
unfolding tasks_to_delete
cleanup_non_existing_tasks none ts = []
cleanup_non_existing_tasks (some enabled) ts = if enabled then tasks_to_delete ts else []

-- The loop of `Close` over the errors of all that is closed: the last error.
unfoldable pub last_error {ℓ} : {E : Type ℓ} → List (Option E) → Option E → Option E
last_error [] e = e
last_error (none ∷ es) e = last_error es e
last_error (some err ∷ es) e = last_error es (some err)
