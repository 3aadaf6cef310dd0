-- ===== src/Download/Tests/Persist.antt =====
-- Examples for the storage, and for tasks that are saved and restored.
use gopeed_torbox.Base.{
  ℕ, ◌≡◌, refl, none, some, List, [], ◌∷◌, map, arith, lookup, insert, without,
}
use gopeed_torbox.Http.Chunk.{Connection, new_connection, new_chunk, resolved}
use gopeed_torbox.Http.Restart.{persisted}
use gopeed_torbox.Http.Resume.{resumed}
use gopeed_torbox.Http.Transfer.{here, resting}
use gopeed_torbox.Http.Transfer.Start.{first_world, first-Inv}
use gopeed_torbox.Http.Transfer.Invariant.{Inv}
use gopeed_torbox.Download.Task.{running}
use gopeed_torbox.Download.Storage.{
  MemStorage, new_mem_storage, setup, put, get, delete, bucket_of, change_value,
}
use gopeed_torbox.Download.Storage.Laws.{has_bucket}
use gopeed_torbox.Download.Storage.Interface.{Storage, mem_storage}
use gopeed_torbox.Download.Persist.{
  FetcherMeta, SavedTask, Value, fetcher_data, task_data, bucket_task, bucket_save, save_task,
  restore_fetcher, rebuilt,
}
use gopeed_torbox.Download.Persist.Http.{
  Fetcher, FetcherData, persisted_data, http_manager, restore, store, build, set_up_fetcher,
  restore_fetcher-save_task, restored-Inv,
}

abbrev Meta : Type 0
Meta = FetcherMeta ℕ ℕ ℕ

abbrev same : ℕ → ℕ
same n = n

abbrev json_value : Value FetcherData Meta → Value FetcherData Meta
json_value (fetcher_data d) = fetcher_data (persisted_data d)
json_value (task_data t) = task_data t

abbrev disk : Storage (MemStorage (Value FetcherData Meta)) (Value FetcherData Meta)
unfolding mem_storage
disk = mem_storage json_value

abbrev start_conns : List Connection
unfolding new_connection new_chunk
start_conns = (first_world 0 3 (λ x. none)).conns

abbrev some_meta : Meta
some_meta = record { req = some 1; res = some 2; opts = some 3 }

abbrev task : SavedTask Meta
task = record { id = "a"; status = running; meta = some_meta }

abbrev fetcher : Fetcher ℕ ℕ ℕ
fetcher = record {
  meta = some_meta;
  connections = start_conns;
  redirect_url = "u";
  state = resolved;
}

abbrev empty_disk : MemStorage (Value FetcherData Meta)
empty_disk = setup (bucket_task ∷ bucket_save ∷ []) new_mem_storage

abbrev saved : MemStorage (Value FetcherData Meta)
saved = (save_task disk (http_manager same same) task fetcher empty_disk).1

abbrev again : Fetcher ℕ ℕ ℕ
again = rebuilt disk (http_manager same same) some_meta (some (persisted_data (store fetcher)))

abbrev after : MemStorage (Value FetcherData Meta)
after = delete bucket_save "a" saved

restore_fetcher-save_task_example :
    (again.connections ≡ map persisted fetcher.connections)
    × (again.redirect_url ≡ fetcher.redirect_url)
    × (disk.reads bucket_save task.id after ≡ none)
unfolding save_task restore_fetcher mem_storage http_manager store restore build set_up_fetcher
    rebuilt new_mem_storage setup put get delete bucket_of has_bucket lookup insert without
    persisted_data start_conns change_value
restore_fetcher-save_task_example =
    restore_fetcher-save_task same same disk (λ d. refl) task fetcher again {s = empty_disk}
      {u = saved} {v = after} refl refl refl refl

restored-Inv_example :
    Inv
      (λ x. x)
      3
      (resumed (record { conns = again.connections; locals = λ _. resting; file = λ x. none }))
unfolding save_task restore_fetcher mem_storage http_manager store restore build set_up_fetcher
    rebuilt new_mem_storage setup put get delete bucket_of has_bucket lookup insert without
    persisted_data start_conns change_value first_world
restored-Inv_example =
    restored-Inv same same disk (λ d. refl) (λ x. x) 3 {w = first_world 0 3 (λ x. none)}
      {x = first_world 0 3 (λ x. none)} task fetcher again {s = empty_disk} {u = saved} {v = after}
      here (first-Inv (λ x. x) 3 0 (λ x. none) (omega arith) (λ x h. absurd (omega (arith, h))))
      refl refl refl refl refl

abbrev one_bucket : MemStorage ℕ
one_bucket = setup ("a" ∷ []) new_mem_storage
