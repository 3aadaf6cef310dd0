-- ===== src/Download/Tests/Setup.antt =====
-- Examples for the configuration, the tasks at the start, the storage's view and archive parts.
use Prim.Native.String.{String, ◌++◌}
use text.Mathlib.Text.{◌==◌ as str_eq}
use gopeed_torbox.Base.{
  ℕ, zero, suc, ◌≤◌, ◌≡◌, refl, Bool, true, false, ◌||◌, Option, none, some, List, [], ◌∷◌,
  if◌then◌else◌, Assoc, lookup, arith,
}
use gopeed_torbox.Util.Files.{Stat, found, not_exist}
use gopeed_torbox.Download.Task.{running, wait, done}
use gopeed_torbox.Download.Config.{Sections, DownloaderStoreConfig, blank_config}
use gopeed_torbox.Download.Operations.{run, created, notified}
use gopeed_torbox.Download.Operations.Limit.{Within}
use gopeed_torbox.Download.Setup.{StoredTask, set_up}
use gopeed_torbox.Download.Setup.Loaded.{set_up-Within}
use gopeed_torbox.Download.Storage.{new_mem_storage, get, bucket_of}
use gopeed_torbox.Download.Storage.Laws.{has_bucket}
use gopeed_torbox.Download.Storage.Refines.{
  StorageView, StorageOp, sets_up, puts, deletes, Shows, storage_run, view_run, run-Shows,
}
use gopeed_torbox.Download.Parts.{Strings, rar_old, Pattern, of_pattern, seven_zip}
use gopeed_torbox.Download.Parts.Collect.{collect_multi_part_files}
use gopeed_torbox.Download.Parts.Collect.Ends.{GoneFor, collect_multi_part_files-Collected}

abbrev sections : Sections
sections = record {
  Proxy = ℕ;
  Webhook = ℕ;
  Script = ℕ;
  AutoTorrent = ℕ;
  Archive = ℕ;
  Value = ℕ;
  empty_proxy = 0;
  empty_webhook = 0;
  empty_script = 0;
  empty_auto_torrent = 0;
  empty_archive = 0;
}

abbrev managers : Assoc ℕ
managers = ("http", 16) ∷ ("bt", 2) ∷ []

abbrev no_config : DownloaderStoreConfig sections
no_config = blank_config

abbrev stored : List StoredTask
stored =
    record { task = record { id = "a"; status = running }; has_meta = true; created_at = 2 }
    ∷ record { task = record { id = "b"; status = wait }; has_meta = true; created_at = 1 }
    ∷ record { task = record { id = "c"; status = done }; has_meta = false; created_at = 0 }
    ∷ []

abbrev can_restore : String → Bool
can_restore i = true

set_up-Within_example :
    Within (run can_restore (created "d" ∷ notified ∷ []) (set_up (λ ss. ss) 1 stored))
set_up-Within_example =
    set_up-Within (λ ss. ss) (λ f ss. refl) can_restore (created "d" ∷ notified ∷ []) 1 stored

abbrev storage_ops : List (StorageOp ℕ)
storage_ops =
    sets_up ("task" ∷ []) ∷ puts "task" "a" 1 ∷ puts "save" "a" 2 ∷ deletes "task" "b" ∷ []

abbrev no_bucket : StorageView ℕ
no_bucket = record { exists = λ i. false; value = λ i j. none }

new-Shows : Shows new_mem_storage no_bucket
unfolding has_bucket get bucket_of new_mem_storage lookup
new-Shows = record { buckets_agree = λ i. refl; values_agree = λ i j. refl }

run-Shows_example : Shows (storage_run storage_ops new_mem_storage) (view_run storage_ops no_bucket)
run-Shows_example = run-Shows storage_ops new_mem_storage no_bucket new-Shows

-- The third and later numbers are printed alike, and `a.7z` has the extension `.7z`.
abbrev part_number : ℕ → String
part_number zero = ".000"
part_number (suc zero) = ".001"
part_number (suc (suc zero)) = ".002"
part_number (suc (suc (suc n))) = ".more"

abbrev plain : Strings
plain = record {
  dir = λ s. "";
  base = λ s. s;
  ext = λ s. ".7z";
  join = λ d s. s;
  to_lower = λ s. s;
  has_suffix = λ s t. false;
  contains = λ s t. false;
  trim_suffix = λ s t. "a";
  sprintf = λ s n. part_number n;
}

-- The directory has an archive of two parts.
abbrev two_parts : String → Stat
two_parts s = if str_eq s "a.7z.001" || str_eq s "a.7z.002" then found else not_exist

no_more_parts : (i : ℕ) → 3 ≤ i → two_parts ("a.7z" ++ part_number i) ≡ not_exist
no_more_parts zero l = absurd (omega (arith, l))
no_more_parts (suc zero) l = absurd (omega (arith, l))
no_more_parts (suc (suc zero)) l = absurd (omega (arith, l))
no_more_parts (suc (suc (suc n))) l = refl

-- Four rounds end, and both parts are collected.
collect_multi_part_files-Collected_example :
    (fs : List String) × (collect_multi_part_files plain two_parts "" "a.7z" 4
        (some (of_pattern seven_zip))
      ≡ some fs)
unfolding GoneFor
collect_multi_part_files-Collected_example =
    collect_multi_part_files-Collected plain two_parts "" "a.7z" 3 (some (of_pattern seven_zip))
      no_more_parts refl

both_collected :
    collect_multi_part_files plain two_parts "" "a.7z" 4 (some (of_pattern seven_zip))
    ≡ some ("a.7z.001" ∷ "a.7z.002" ∷ [])
unfolding collect_multi_part_files
both_collected = refl

-- `a.r00` and `a.r01` match the pattern of the old style.
abbrev find_old : Pattern → String → Option (String × List ℕ)
find_old rar_old s =
    if str_eq s "a.r00"
    then some ("a", 48 ∷ 48 ∷ [])
    else if str_eq s "a.r01"
    then some ("a", 48 ∷ 49 ∷ [])
    else none
find_old p s = none
