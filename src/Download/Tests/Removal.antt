-- ===== src/Download/Tests/Removal.antt =====
-- Examples for the deletion of tasks.
use gopeed_torbox.Base.{ℕ, ◌≡◌, refl, true, ◌&&◌, none, some, List, [], ◌∷◌, if◌then◌else◌}
use gopeed_torbox.Download.Storage.{MemStorage, setup, put, new_mem_storage}
use gopeed_torbox.Download.Storage.Interface.{Storage, mem_storage}
use gopeed_torbox.Download.Persist.{bucket_task, bucket_save}
use gopeed_torbox.Download.Removal.{Victim, Disk, delete_each}
use gopeed_torbox.Download.Removal.Gone.{is_victim, of_tasks, delete_each-reads}

abbrev memory : Storage (MemStorage ℕ) ℕ
unfolding mem_storage
memory = mem_storage (λ n. n)

abbrev disk : Disk (MemStorage ℕ)
unfolding setup put new_mem_storage
disk = record {
  stored = put bucket_task "a" 1 (setup (bucket_task ∷ bucket_save ∷ []) new_mem_storage);
  removed = [];
}

abbrev victims : List Victim
victims = record { id = "a"; closes = some true; path = some "f"; removable = true } ∷ []

delete_each-reads_example :
    memory.reads bucket_task "a" (delete_each memory true victims disk).0.stored ≡ (
      if of_tasks bucket_task && is_victim "a" victims
      then none
      else memory.reads bucket_task "a" disk.stored)
unfolding delete_each memory disk mem_storage setup put new_mem_storage
delete_each-reads_example = delete_each-reads memory true victims disk bucket_task "a" refl
