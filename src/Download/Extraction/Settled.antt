-- ===== src/Download/Extraction/Settled.antt =====
-- pkg/download/downloader.go: the tasks after an extraction.
use Prim.Native.String.{String}
use text.Mathlib.Text.{◌==◌ as str_eq}
use gopeed_torbox.Base.{
  ℕ, ◌≡◌, refl, sym, ap, ◌∙◌, Bool, true, false, not, ◌&&◌, List, [], ◌∷◌, map, if◌then◌else◌,
  Bool-cases, inl, inr, ◌++◌, append-nil, append_assoc,
}
use gopeed_torbox.Download.MultiPart.{without_name}
use gopeed_torbox.Download.Extraction.{
  ExtractTask, Extractions, ExtractProgress, change, stored_as, with_status, extracting,
  extract_done, extract_error, start_extraction, report_progress, remove_each,
  handle_extraction_result, update_related, update_multi_part_tasks_status,
  perform_multi_part_extraction,
}
use gopeed_torbox.Download.Extraction.Reports.{
  map_twice, on_task, reported, last_report, reported-own, reported-other, tasks-report_progress,
  rest-report_progress,
}

-- What has been removed of the files.
abbrev pub kept_if {ℓ} : {A : Type ℓ} → (A → Bool) → List A → List A
kept_if p [] = []
kept_if p (x ∷ xs) = if p x then x ∷ kept_if p xs else kept_if p xs

remove_each-kept_if :
    (puts : ExtractTask → Bool) (removable : String → Bool) (fs removed : List String)
    → remove_each puts removable fs removed ≡ removed ++ kept_if removable fs
unfolding remove_each
remove_each-kept_if puts removable [] removed = sym (append-nil removed)
remove_each-kept_if puts removable (f ∷ fs) removed = elim (Bool-cases (removable f)) [
  | inl q ↦ rw q (
      remove_each-kept_if puts removable fs (removed ++ f ∷ [])
      ∙ append_assoc removed (f ∷ []) (kept_if removable fs))
  | inr q ↦ rw q (remove_each-kept_if puts removable fs removed)
]

-- The progress of a task whose archive was extracted, after the number that was reported last, and
-- that of another part of the archive.
abbrev pub own_progress : Bool → ℕ → ExtractProgress → ExtractProgress
own_progress true last p = record {
  status = extract_error;
  percent = last;
  multi_part_base_name = p.multi_part_base_name;
}
own_progress false last p = record {
  status = extract_done;
  percent = 100;
  multi_part_base_name = p.multi_part_base_name;
}

abbrev pub part_progress : Bool → ExtractProgress → ExtractProgress
part_progress true p = record {
  status = extract_error;
  percent = 0;
  multi_part_base_name = p.multi_part_base_name;
}
part_progress false p = record {
  status = extract_done;
  percent = 100;
  multi_part_base_name = p.multi_part_base_name;
}

-- The progress at the start of the extraction.
abbrev pub first_progress : ExtractProgress → ExtractProgress
first_progress p = record {
  status = extracting;
  percent = 0;
  multi_part_base_name = p.multi_part_base_name;
}

module _ (puts : ExtractTask → Bool) where
  -- A task with a new progress, which is stored if Put returns no error; else what was stored last stays.
  abbrev pub with_progress : ExtractProgress → ExtractProgress → ExtractTask → ExtractTask
  with_progress p last t = record {
    id = t.id;
    progress = p;
    stored = if puts (record { id = t.id; progress = p; stored = last }) then p else last;
  }

  abbrev pub stored_first : ExtractTask → ExtractProgress
  stored_first t =
      if puts (record { id = t.id; progress = first_progress t.progress; stored = t.stored })
      then first_progress t.progress
      else t.stored

  -- What an extraction makes of a task: of its own, and of those with the same base name.
  abbrev pub outcome : String → String → List ℕ → Bool → ExtractTask → ExtractTask
  outcome i base reports fails t =
      if str_eq t.id i
      then with_progress (own_progress fails (last_report 0 reports) t.progress) (stored_first t) t
      else if str_eq t.progress.multi_part_base_name base
      then with_progress (part_progress fails t.progress) t.stored t
      else t

  abbrev ended : String → Bool → ExtractTask → ExtractTask
  ended i true = on_task i (stored_as puts (λ p. record p { status = extract_error }))
  ended i false = on_task i (stored_as puts (with_status extract_done 100))

  abbrev started : String → List ℕ → ExtractTask → ExtractTask
  unfolding reported
  started i reports t = reported i reports (on_task i (stored_as puts (with_status extracting 0)) t)

  outcome_lem :
      (i base : String) (reports : List ℕ) (fails : Bool) (t : ExtractTask)
      → update_related puts i base fails (ended i fails (started i reports t))
        ≡ outcome i base reports fails t
  unfolding started
  outcome_lem i base reports true t = elim (Bool-cases (str_eq t.id i)) [
    | inl q ↦ simp (q, reported-own i reports (stored_as puts (with_status extracting 0) t) q)
    | inr q ↦ simp (q, reported-other i reports t q)
  ]
  outcome_lem i base reports false t = elim (Bool-cases (str_eq t.id i)) [
    | inl q ↦ simp (q, reported-own i reports (stored_as puts (with_status extracting 0) t) q)
    | inr q ↦ simp (q, reported-other i reports t q)
  ]

  tasks-handle_extraction_result :
      (removable : String → Bool) (i : String) (fails : Bool) (files : List String) (delete : Bool)
      (w : Extractions)
      → (handle_extraction_result puts removable i fails files delete w).tasks
        ≡ map (ended i fails) w.tasks
  unfolding handle_extraction_result change
  tasks-handle_extraction_result removable i true files delete w = refl
  tasks-handle_extraction_result removable i false files delete w = refl

  rest-handle_extraction_result :
      (removable : String → Bool) (i : String) (fails : Bool) (files : List String) (delete : Bool)
      (w : Extractions)
      → let v = handle_extraction_result puts removable i fails files delete w in
        (v.removed
          ≡ (if not fails && delete then remove_each puts removable files w.removed else w.removed))
        × (v.claims ≡ w.claims)
  unfolding handle_extraction_result
  rest-handle_extraction_result removable i true files delete w = (refl, refl)
  rest-handle_extraction_result removable i false files true w = (refl, refl)
  rest-handle_extraction_result removable i false files false w = (refl, refl)

  update-related :
      (i base : String) (fails : Bool) (w : Extractions)
      → str_eq base "" ≡ false
      → update_multi_part_tasks_status puts i base fails w
        ≡ record w { tasks = map (update_related puts i base fails) w.tasks }
  unfolding update_multi_part_tasks_status
  update-related i base fails w h = rw (update_multi_part_tasks_status, h) refl

  tasks-started :
      (i : String) (reports : List ℕ) (w : Extractions)
      → (report_progress i reports (start_extraction puts i w)).tasks
        ≡ map (started i reports) w.tasks
  unfolding start_extraction change started
  tasks-started i reports w =
      let one : ExtractTask → ExtractTask = on_task i (stored_as puts (with_status extracting 0)) in
      tasks-report_progress i reports (record w { tasks = map one w.tasks })
      ∙ map_twice (reported i reports) one (started i reports) w.tasks (λ t. refl)

  -- When the extraction of an archive in several parts has ended, for a task whose base name is
  -- not empty: the task itself, and each task with the same base name, is done with 100 percent,
  -- or has an error if the extraction failed; it is stored so, if Put returns no error, and else
  -- what was stored before stays. Each other task is as it was. Only after a success, and only if
  -- wanted, are the files of the parts removed, as far as they can be. One claim of the archive is
  -- released.
  pub perform_multi-settles :
      (removable : String → Bool) (i base full : String) (reports : List ℕ) (fails : Bool)
      (files : List String) (delete : Bool) (w : Extractions)
      → str_eq base "" ≡ false
      → let e =
          perform_multi_part_extraction puts removable i base full reports fails files delete w in
        (e.tasks ≡ map (outcome i base reports fails) w.tasks)
        × (e.removed
            ≡ (if not fails && delete then w.removed ++ kept_if removable files else w.removed))
        × (e.claims ≡ without_name full w.claims)
  unfolding perform_multi_part_extraction start_extraction
  perform_multi-settles removable i base full reports fails files delete w h =
      let before = report_progress i reports (start_extraction puts i w) in
      let after = handle_extraction_result puts removable i fails files delete before in
      let update = update-related i base fails after h in
      let (same_files, same_claims) = rest-report_progress i reports (start_extraction puts i w) in
      let (removed, claims) = rest-handle_extraction_result removable i fails files delete before in
      let ends = λ (t : ExtractTask). ended i fails (started i reports t) in
      (
        ap (λ (v : Extractions). v.tasks) update
            ∙ (ap (map (update_related puts i base fails)) (
                  tasks-handle_extraction_result removable i fails files delete before
                  ∙ (ap (map (ended i fails)) (tasks-started i reports w)
                      ∙ map_twice (ended i fails) (started i reports) ends w.tasks (λ t. refl)))
                ∙ map_twice (update_related puts i base fails) ends (outcome i base reports fails)
                    w.tasks (outcome_lem i base reports fails)),
        ap (λ (v : Extractions). v.removed) update
            ∙ (removed
                ∙ (ap (λ r. if not fails && delete then remove_each puts removable files r else r)
                      same_files
                    ∙ ap (λ r. if not fails && delete then r else w.removed)
                        (remove_each-kept_if puts removable files w.removed))),
        ap (without_name full) (ap (λ (v : Extractions). v.claims) update ∙ (claims ∙ same_claims)),
      )
