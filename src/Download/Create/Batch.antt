-- ===== src/Download/Create/Batch.antt =====
-- pkg/download/downloader.go: what is created of a batch of requests, and the IDs of resolved fetchers.
use Prim.Native.String.{String}
use text.Mathlib.Text.{◌==◌ as str_eq}
use text.Mathlib.TextEquality.{eq_iff}
use gopeed_torbox.Base.{
  ℕ, suc, ◌≡◌, refl, ◌∙◌, inl, inr, Bool, true, false, ◌&&◌, Option, none, some, List, [], ◌∷◌,
  ◌++◌, ◌==◌, arith, if◌then◌else◌, length, take, append_assoc, append-nil, ap, sym, lookup,
  lookup-without, Option-cases, Bool-cases,
}
use gopeed_torbox.Download.Task.{Task, new_task, put_status, wait}
use gopeed_torbox.Download.Scheduler.{Downloader, start_task, do_create, do_start}
use gopeed_torbox.Download.Create.{
  TaskOptions, Session, Result, ok, failed, create_task, create, create_cached, create_direct,
  create_direct_batch, opts_or, cons_id,
}

abbrev pub ids_of_tasks : List Task → List String
ids_of_tasks [] = []
ids_of_tasks (t ∷ ts) = t.id ∷ ids_of_tasks ts

ids_of_tasks-put_status :
    (i : String) (ts : List Task) → ids_of_tasks (put_status i wait ts) ≡ ids_of_tasks ts
unfolding put_status
ids_of_tasks-put_status i [] = refl
ids_of_tasks-put_status i (t ∷ ts) = elim (Bool-cases (str_eq t.id i)) [
  | inl e ↦ rw e refl
  | inr e ↦ rw e (ap (λ r. t.id ∷ r) (ids_of_tasks-put_status i ts))
]

ids_of_tasks-append :
    (ts us : List Task) → ids_of_tasks (ts ++ us) ≡ ids_of_tasks ts ++ ids_of_tasks us
ids_of_tasks-append [] us = refl
ids_of_tasks-append (t ∷ ts) us = ap (λ r. t.id ∷ r) (ids_of_tasks-append ts us)

suc-== : (a b : ℕ) → (suc a == suc b) ≡ (a == b)
suc-== a b = ground arith

zero-== : (b : ℕ) → (0 == suc b) ≡ false
zero-== b = ground arith

abbrev pub is_given {ℓ} : {A : Type ℓ} → Option A → Bool
is_given none = false
is_given (some a) = true

module _ (restores : String → Bool) where
  id-start_task : (t : Task) → (start_task restores t).0.id ≡ t.id
  unfolding start_task
  id-start_task t = ground arith

  ids_of_tasks-do_start :
      (i : String) (ts : List Task) → ids_of_tasks (do_start restores i ts).0 ≡ ids_of_tasks ts
  unfolding do_start
  ids_of_tasks-do_start i [] = refl
  ids_of_tasks-do_start i (t ∷ ts) = elim (Bool-cases (str_eq t.id i)) [
    | inl e ↦ rw e (ap (λ j. j ∷ ids_of_tasks ts) (id-start_task t))
    | inr e ↦ rw e (ap (λ r. t.id ∷ r) (ids_of_tasks-do_start i ts))
  ]

  ids_of_tasks-do_create :
      (t : Task) (d : Downloader)
      → ids_of_tasks (do_create restores t d).tasks ≡ ids_of_tasks d.tasks ++ t.id ∷ []
  unfolding do_create
  ids_of_tasks-do_create t d = ground (
    arith,
    ids_of_tasks-append d.tasks (t ∷ []),
    ids_of_tasks-put_status t.id (d.tasks ++ t ∷ []),
    ids_of_tasks-do_start t.id (d.tasks ++ t ∷ []),
  )

module _ {F : Type 0} (build_fetcher : String → Option F) (puts : String → Bool)
    (restores : String → Bool) (options : Option TaskOptions → Option TaskOptions)
    (common : Option TaskOptions) where
  abbrev pub BatchItem : Type 0
  BatchItem = String × String × Option TaskOptions

  -- Whether a task can be made for a request.
  unfoldable pub creatable : BatchItem → Bool
  creatable (i, url, opts) =
      is_given (build_fetcher url) && (is_given (options (opts_or opts common)) && puts i)

  -- How many requests of the batch come before the first for which none can be made.
  unfoldable pub creatable_count : List BatchItem → ℕ
  unfolding creatable
  creatable_count [] = 0
  creatable_count (r ∷ rs) = let rest = creatable_count rs in if creatable r then suc rest else 0

  abbrev pub ids : List BatchItem → List String
  ids [] = []
  ids ((i, url, opts) ∷ rs) = i ∷ ids rs

  abbrev pub created : List BatchItem → ℕ → Result (List String)
  created rs n = if n == length rs then ok (ids rs) else failed

  ids-cons :
      (i url : String) (opts : Option TaskOptions) (rs : List BatchItem)
      → cons_id i (created rs (creatable_count rs))
        ≡ created ((i, url, opts) ∷ rs) (suc (creatable_count rs))
  ids-cons i url opts rs = elim (Bool-cases (creatable_count rs == length rs)) [
    | inl e ↦ rw (e, suc-== (creatable_count rs) (length rs) ∙ e) refl
    | inr e ↦ rw (e, suc-== (creatable_count rs) (length rs) ∙ e) refl
  ]

  unfoldable pub with_task : String → Session F → Session F
  with_task i s = record s { downloader = do_create restores (new_task i) s.downloader }

  direct_lem :
      (i url : String) (opts : Option TaskOptions) (s : Session F)
      → create_direct build_fetcher puts restores options i url (opts_or opts common) s
        ≡ (if creatable (i, url, opts) then (ok i, with_task i s) else (failed, s))
  unfolding create_direct create_task creatable with_task
  direct_lem i url opts s = elim (Option-cases (build_fetcher url)) [
    | inl e ↦ rw (e, create_direct) refl
    | inr (f, e) ↦ elim (Option-cases (options (opts_or opts common))) [
      | inl q ↦ rw (e, q, create_direct) refl
      | inr (o, q) ↦ elim (Bool-cases (puts i)) [
        | inl k ↦ rw (e, q, k, create_direct) refl
        | inr k ↦ rw (e, q, k, create_direct) refl
      ]
    ]
  ]

  ids_of_tasks-with_task :
      (i : String) (s : Session F)
      → ids_of_tasks (with_task i s).downloader.tasks ≡ ids_of_tasks s.downloader.tasks ++ i ∷ []
  unfolding with_task new_task
  ids_of_tasks-with_task i s = ids_of_tasks-do_create restores (new_task i) s.downloader

  with_task-append :
      (i : String) (s : Session F) (is : List String)
      → ids_of_tasks (with_task i s).downloader.tasks ++ is
        ≡ ids_of_tasks s.downloader.tasks ++ i ∷ is
  with_task-append i s is =
      ap (λ js. js ++ is) (ids_of_tasks-with_task i s)
      ∙ append_assoc (ids_of_tasks s.downloader.tasks) (i ∷ []) is

  -- CreateDirectBatch adds to the tasks one for each request before the first for which none can
  -- be made, in the order of the requests and with their IDs, and returns these IDs if no request
  -- fails. If one fails it returns an error and no IDs, and the tasks of the requests before it
  -- stay. None can be made for a request where no fetcher can be built for its URL, where its
  -- options, or the common ones if it has none, are refused, or where its task cannot be stored.
  pub batch-created :
      (rs : List BatchItem) (s : Session F)
      → (ids_of_tasks
            (create_direct_batch build_fetcher puts restores options common rs s).1.downloader.tasks
          ≡ ids_of_tasks s.downloader.tasks ++ take (creatable_count rs) (ids rs))
        × ((create_direct_batch build_fetcher puts restores options common rs s).0
            ≡ created rs (creatable_count rs))
  unfolding create_direct_batch creatable_count
  batch-created [] s = (sym (append-nil (ids_of_tasks s.downloader.tasks)), refl)
  batch-created ((i, url, opts) ∷ rs) s =
      let (n, r) = batch-created rs (with_task i s) in
      elim (Bool-cases (creatable (i, url, opts))) [
        | inl e ↦ (
          rw (direct_lem i url opts s, e, create_direct_batch)
              (n ∙ with_task-append i s (take (creatable_count rs) (ids rs))),
          rw (direct_lem i url opts s, e, create_direct_batch, r) (ids-cons i url opts rs),
        )
        | inr e ↦ (
          rw (direct_lem i url opts s, e, create_direct_batch)
              (sym (append-nil (ids_of_tasks s.downloader.tasks))),
          rw (direct_lem i url opts s, e, create_direct_batch, zero-== (length rs)) refl,
        )
      ]

module _ {F : Type 0} (build_fetcher : String → Option F) (puts : String → Bool)
    (restores : String → Bool) (options : Option TaskOptions → Option TaskOptions) where
  cache-create_cached :
      (rr i : String) (o : Option F) (s : Session F)
      → lookup rr s.fetcher_cache ≡ o
      → lookup rr (create_cached build_fetcher puts restores options rr i o s).1.fetcher_cache
        ≡ none
  unfolding create_task
  cache-create_cached rr i none s h = h
  cache-create_cached rr i (some f) s h = elim (Bool-cases (puts i)) [
    | inl e ↦
        rw (e, create_task, lookup-without rr rr s.fetcher_cache) (ground (arith, eq_iff rr rr))
    | inr e ↦
        rw (e, create_task, lookup-without rr rr s.fetcher_cache) (ground (arith, eq_iff rr rr))
  ]

  -- A resolved fetcher makes one task: the second Create with the same ID fails and makes none.
  pub create-create :
      (rr i j : String) (s : Session F)
      → create build_fetcher puts restores options rr j
          (create build_fetcher puts restores options rr i s).1
        ≡ (failed, (create build_fetcher puts restores options rr i s).1)
  unfolding create
  create-create rr i j s = rw (cache-create_cached rr i (lookup rr s.fetcher_cache) s refl) refl
