-- ===== src/Download/Persist/Laws.antt =====
-- pkg/download/downloader.go: what is read after a task was saved, over any storage and manager.
use Prim.Native.String.{String}
use text.Mathlib.TextEquality.{eq_iff}
use gopeed_torbox.Base.{◌≡◌, refl, sym, ◌∙◌, inl, inr, true, none, some, Option-cases, arith}
use gopeed_torbox.Download.Storage.{change_value}
use gopeed_torbox.Download.Storage.Interface.{Storage}
use gopeed_torbox.Download.Persist.{
  FetcherMeta, SavedTask, Value, fetcher_data, task_data, FetcherManager, bucket_task, bucket_save,
  save_task, rebuilt, restore_fetcher,
}

module _ {S D F Req Res Opts : Type 0} (st : Storage S (Value D (FetcherMeta Req Res Opts)))
    (fm : FetcherManager F D (FetcherMeta Req Res Opts)) where
  -- Both puts succeeded.
  puts_of :
      (t : SavedTask (FetcherMeta Req Res Opts)) (f : F) (d : D) (s u : S)
      → fm.store f ≡ some d
      → save_task st fm t f s ≡ (true, u)
      → (v : S) × (st.puts bucket_save t.id (fetcher_data d) s ≡ some v)
        × (st.puts bucket_task t.id (task_data t) v ≡ some u)
  unfolding save_task
  puts_of t f d s u e run = elim (Option-cases (st.puts bucket_save t.id (fetcher_data d) s)) [
    | inl q ↦ ground (arith, e, q, run)
    | inr (v, q) ↦ elim (Option-cases (st.puts bucket_task t.id (task_data t) v)) [
      | inl r ↦ ground (arith, e, q, r, run)
      | inr (w, r) ↦ (v, q, ground (arith, e, q, r, run))
    ]
  ]

  pub saved-data :
      (t : SavedTask (FetcherMeta Req Res Opts)) (f : F) (d : D) {s u : S}
      → fm.store f ≡ some d
      → st.has bucket_save s ≡ true
      → st.has bucket_task s ≡ true
      → save_task st fm t f s ≡ (true, u)
      → st.reads bucket_save t.id u ≡ some (st.keeps (fetcher_data d))
  saved-data t f d {s} {u} e h k run =
      let (v, p, q) = puts_of t f d s u e run in
      let first = st.reads-puts bucket_save t.id bucket_save t.id (fetcher_data d) h p in
      let k' = st.has-puts bucket_save t.id bucket_task (fetcher_data d) p ∙ k in
      let second = st.reads-puts bucket_task t.id bucket_save t.id (task_data t) k' q in
      ground (arith, eq_iff t.id t.id, first, second)

  pub saved-task :
      (t : SavedTask (FetcherMeta Req Res Opts)) (f : F) (d : D) {s u : S}
      → fm.store f ≡ some d
      → st.has bucket_task s ≡ true
      → save_task st fm t f s ≡ (true, u)
      → st.reads bucket_task t.id u ≡ some (st.keeps (task_data t))
  saved-task t f d {s} {u} e h run =
      let (v, p, q) = puts_of t f d s u e run in
      let h' = st.has-puts bucket_save t.id bucket_task (fetcher_data d) p ∙ h in
      let law = st.reads-puts bucket_task t.id bucket_task t.id (task_data t) h' q in
      ground (arith, eq_iff t.id t.id, law)

  pub restored :
      (i : String) (meta : FetcherMeta Req Res Opts) (z d : D) {s u : S} {g : F}
      → fm.blank ≡ some z
      → st.reads bucket_save i s ≡ some (fetcher_data d)
      → restore_fetcher st fm i meta s ≡ some (g, u)
      → (g ≡ rebuilt st fm meta (some d)) × (st.reads bucket_save i u ≡ none)
  unfolding restore_fetcher change_value
  restored i meta z d {s} {u} {g} b r run = elim (Option-cases (st.pops bucket_save i s)) [
    | inl q ↦ ground (arith, b, q, run)
    | inr ((o, v), q) ↦
        let e = st.popped bucket_save i q ∙ r in
        let law = st.reads-pops bucket_save i bucket_save i q in
        let done : restore_fetcher st fm i meta s ≡ some (rebuilt st fm meta (some d), v) =
          rw (b, q, e) refl in
        (cc, ground (arith, sym done ∙ run, law, eq_iff i i))
  ]
