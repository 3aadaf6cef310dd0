-- ===== src/Download/Persist.antt =====
-- pkg/download/downloader.go, internal/fetcher: the saving of a task and of its fetcher, and the
-- restoring of the fetcher, over any storage and any fetcher manager.
pub mod Laws
pub mod Http
use Prim.Native.String.{String}
use gopeed_torbox.Base.{Bool, true, false, Option, none, some, List, [], ◌∷◌}
use gopeed_torbox.Download.Task.{Status}
use gopeed_torbox.Download.Storage.{change_value}
use gopeed_torbox.Download.Storage.Interface.{Storage}

-- `nil` pointers are `none`.
pub record FetcherMeta (Req Res Opts : Type 0) : Type 0 where
  pub req : Option Req
  pub res : Option Res
  pub opts : Option Opts

-- The part of a task that its JSON has.
pub record SavedTask (M : Type 0) : Type 0 where
  pub id : String
  pub status : Status
  pub meta : M

-- What a bucket holds: the data of a fetcher, or a task.
pub data Value (D M : Type 0) : Type 0 where
  fetcher_data : D → Value D M
  task_data : SavedTask M → Value D M

-- The operations of the interface `FetcherManager`, and those of `Fetcher` on its meta, for fetchers F
-- whose saved data are D. `store` gives `none` for an error; `blank` is the first result of `Restore`
-- and `rebuild` the function it returns.
pub record FetcherManager (F D M : Type 0) : Type 0 where
  pub store : F → Option D
  pub blank : Option D
  pub rebuild : M → Option D → Option F
  pub build : F
  pub set_up : F → F
  pub meta_of : F → M
  pub with_meta : M → F → F

abbrev pub bucket_task : String
bucket_task = "task"

abbrev pub bucket_save : String
bucket_save = "save"

abbrev pub or_else {ℓ} : {A : Type ℓ} → Option A → Option A → Option A
or_else none q = q
or_else (some p) q = some p

abbrev pub or_build {ℓ} : {A : Type ℓ} → A → Option A → A
or_build b none = b
or_build b (some f) = f

unfoldable pub fill_meta :
    {Req Res Opts : Type 0}
    → FetcherMeta Req Res Opts
    → FetcherMeta Req Res Opts
    → FetcherMeta Req Res Opts
fill_meta own given = record {
  req = or_else own.req given.req;
  res = or_else own.res given.res;
  opts = or_else own.opts given.opts;
}

module _ {S D F Req Res Opts : Type 0} (st : Storage S (Value D (FetcherMeta Req Res Opts)))
    (fm : FetcherManager F D (FetcherMeta Req Res Opts)) where
  -- Whether there was no error, and the storage.
  abbrev pub put_task : SavedTask (FetcherMeta Req Res Opts) → S → Option S → Bool × S
  put_task t s none = (false, s)
  put_task t s (some u) = elim (st.puts bucket_task t.id (task_data t) u) [
    | none ↦ (false, u)
    | some v ↦ (true, v)
  ]

  abbrev pub put_data : SavedTask (FetcherMeta Req Res Opts) → S → Option D → Bool × S
  put_data t s none = (false, s)
  put_data t s (some d) = put_task t s (st.puts bucket_save t.id (fetcher_data d) s)

  -- `saveTask`, for a task and its fetcher.
  unfoldable pub save_task : SavedTask (FetcherMeta Req Res Opts) → F → S → Bool × S
  save_task t f s = put_data t s (fm.store f)

  -- The target of `Pop` after it. A value of another type would be a panic, here `none`.
  abbrev pub into : D → Option (Value D (FetcherMeta Req Res Opts)) → Option D
  into z none = some (change_value z none)
  into z (some (fetcher_data d)) = some (change_value z (some d))
  into z (some (task_data t)) = none

  abbrev pub popped_into :
      D → Option (Option (Value D (FetcherMeta Req Res Opts)) × S) → Option (Option D × S)
  popped_into z none = none
  popped_into z (some (o, s)) = elim (into z o) [ none ↦ none | some d ↦ some (some d, s) ]

  abbrev pub pop_data : String → Option D → S → Option (Option D × S)
  pop_data i none s = some (none, s)
  pop_data i (some z) s = popped_into z (st.pops bucket_save i s)

  -- The fetcher from what was read.
  unfoldable pub rebuilt : FetcherMeta Req Res Opts → Option D → F
  unfolding fill_meta
  rebuilt meta v =
      let f = fm.set_up (or_build fm.build (fm.rebuild meta v)) in
      fm.with_meta (fill_meta (fm.meta_of f) meta) f

  abbrev pub finish_restore : FetcherMeta Req Res Opts → Option (Option D × S) → Option (F × S)
  finish_restore meta none = none
  finish_restore meta (some (v, s)) = some (rebuilt meta v, s)

  -- `restoreFetcher`, for the task's ID and meta; an error is `none`.
  unfoldable pub restore_fetcher : String → FetcherMeta Req Res Opts → S → Option (F × S)
  unfolding rebuilt
  restore_fetcher i meta s = finish_restore meta (pop_data i fm.blank s)

  -- The first statements of `doDelete`.
  abbrev pub delete_data : String → S → Option S → Bool × S
  delete_data i s none = (false, s)
  delete_data i s (some t) = elim (st.deletes bucket_save i t) [
    | none ↦ (false, t)
    | some u ↦ (true, u)
  ]

  unfoldable pub delete_saved : String → S → Bool × S
  delete_saved i s = delete_data i s (st.deletes bucket_task i s)
