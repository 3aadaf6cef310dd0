-- ===== src/Download/Removal/Gone.antt =====
-- pkg/download/downloader.go: what is stored after a deletion.
use Prim.Native.String.{String}
use text.Mathlib.Text.{◌==◌ as str_eq}
use gopeed_torbox.Base.{
  ◌≡◌, refl, Bool, true, false, ◌&&◌, ◌||◌, Option, none, some, List, [], ◌∷◌, if◌then◌else◌, arith,
  Bool-cases, Option-cases, inl, inr,
}
use gopeed_torbox.Download.Persist.{bucket_task, bucket_save}
use gopeed_torbox.Download.Storage.Interface.{Storage}
use gopeed_torbox.Download.Removal.{Victim, Disk, remove_path, closed_then, do_delete, delete_each}

-- The task with an ID is among them.
unfoldable pub is_victim : String → List Victim → Bool
is_victim k [] = false
is_victim k (v ∷ vs) = str_eq v.id k || is_victim k vs

-- The buckets that have an entry for each task.
abbrev pub of_tasks : String → Bool
of_tasks b = str_eq bucket_task b || str_eq bucket_save b

stored-remove_path :
    {S : Type 0} (force removable : Bool) (path : Option String) (w : Disk S)
    → (remove_path force removable path w).0.stored ≡ w.stored
stored-remove_path force removable none w = refl
stored-remove_path true true (some p) w = refl
stored-remove_path true false (some p) w = refl
stored-remove_path false removable (some p) w = refl

stored-closed_then :
    {S : Type 0} (force : Bool) (v : Victim) (o : Option Bool) (w : Disk S)
    → (closed_then force v o w).0.stored ≡ w.stored
stored-closed_then force v none w = stored-remove_path force v.removable v.path w
stored-closed_then force v (some true) w = stored-remove_path force v.removable v.path w
stored-closed_then force v (some false) w = refl

module _ {S Z : Type 0} (st : Storage S Z) where
  do_delete-reads :
      (force : Bool) (v : Victim) (w : Disk S) (b k : String)
      → (do_delete st force v w).1 ≡ true
      → st.reads b k (do_delete st force v w).0.stored
        ≡ (if of_tasks b && str_eq v.id k then none else st.reads b k w.stored)
  unfolding do_delete
  do_delete-reads force v w b k h = elim (Option-cases (st.deletes bucket_task v.id w.stored)) [
    | inl fails ↦ let bad : false ≡ true = rw (do_delete, fails) at h in cc
    | inr (s, first) ↦ elim (Option-cases (st.deletes bucket_save v.id s)) [
      | inl fails ↦ let bad : false ≡ true = rw (do_delete, first, fails) at h in cc
      | inr (t, second) ↦
          let gone = stored-closed_then force v v.closes (record w { stored = t }) in
          let law = st.reads-deletes bucket_task v.id b k first in
          let law2 = st.reads-deletes bucket_save v.id b k second in
          let two : st.reads b k t
              ≡ (if of_tasks b && str_eq v.id k then none else st.reads b k w.stored) =
            ground (arith, law, law2) in
          rw (do_delete, first, second, gone) two
    ]
  ]

  -- A deletion of tasks without an error leaves nothing stored of them, neither the tasks nor what
  -- their fetchers saved, and everything else that is stored as it was.
  pub delete_each-reads :
      (force : Bool) (vs : List Victim) (w : Disk S) (b k : String)
      → (delete_each st force vs w).1 ≡ true
      → st.reads b k (delete_each st force vs w).0.stored
        ≡ (if of_tasks b && is_victim k vs then none else st.reads b k w.stored)
  unfolding delete_each is_victim
  delete_each-reads force [] w b k h = ground arith
  delete_each-reads force (v ∷ vs) w b k h =
      let next = do_delete st force v w in
      elim (Bool-cases next.1) [
        | inl q ↦
            let one = do_delete-reads force v w b k q in
            let later = delete_each-reads force vs next.0 b k (rw q at h) in
            rw q (ground (arith, one, later))
        | inr q ↦ let bad : false ≡ true = rw (delete_each, q, q) at h in cc
      ]
