-- ===== src/Download/Extraction/Reports.antt =====
-- pkg/download/downloader.go: the progress that an extraction reports.
use Prim.Native.String.{String}
use text.Mathlib.Text.{◌==◌ as str_eq}
use gopeed_torbox.Base.{ℕ, ◌≡◌, refl, sym, ◌∙◌, true, false, List, [], ◌∷◌, map, if◌then◌else◌}
use gopeed_torbox.Download.Extraction.{ExtractTask, Extractions, change, shown, report_progress}

module _ {ℓ} {A : Type ℓ} where
  pub map_same : (f : A → A) (xs : List A) → ((x : A) → f x ≡ x) → map f xs ≡ xs
  map_same f [] h = refl
  map_same f (x ∷ xs) h = rw (h x, map_same f xs h) refl

  pub map_twice :
      (f g h : A → A) (xs : List A) → ((x : A) → f (g x) ≡ h x) → map f (map g xs) ≡ map h xs
  map_twice f g h [] e = refl
  map_twice f g h (x ∷ xs) e = rw (e x, map_twice f g h xs e) refl

-- A change of the task with an ID.
abbrev pub on_task : String → (ExtractTask → ExtractTask) → ExtractTask → ExtractTask
on_task i f t = if str_eq t.id i then f t else t

unfoldable pub reported : String → List ℕ → ExtractTask → ExtractTask
reported i [] t = t
reported i (n ∷ ns) t = reported i ns (on_task i (shown (λ p. record p { percent = n })) t)

-- The last number that was reported.
abbrev pub last_report : ℕ → List ℕ → ℕ
last_report n [] = n
last_report n (k ∷ ks) = last_report k ks

pub reported-own :
    (i : String) (ns : List ℕ) (t : ExtractTask)
    → str_eq t.id i ≡ true
    → reported i ns t ≡ shown (λ p. record p { percent = last_report p.percent ns }) t
unfolding reported
reported-own i [] t h = refl
reported-own i (n ∷ ns) t h = simp h (reported-own i ns (shown (λ p. record p { percent = n }) t) h)

pub reported-other :
    (i : String) (ns : List ℕ) (t : ExtractTask) → str_eq t.id i ≡ false → reported i ns t ≡ t
unfolding reported
reported-other i [] t h = refl
reported-other i (n ∷ ns) t h = simp h (reported-other i ns t h)

pub tasks-report_progress :
    (i : String) (ns : List ℕ) (w : Extractions)
    → (report_progress i ns w).tasks ≡ map (reported i ns) w.tasks
unfolding report_progress reported change
tasks-report_progress i [] w =
    let same : w.tasks ≡ map (reported i []) w.tasks =
      sym (map_same (reported i []) w.tasks (λ t. refl)) in
    same
tasks-report_progress i (n ∷ ns) w =
    let one : ExtractTask → ExtractTask = on_task i (shown (λ p. record p { percent = n })) in
    tasks-report_progress i ns (record w { tasks = map one w.tasks })
    ∙ map_twice (reported i ns) one (reported i (n ∷ ns)) w.tasks (λ t. refl)

-- The files and the claims stay.
pub rest-report_progress :
    (i : String) (ns : List ℕ) (w : Extractions)
    → ((report_progress i ns w).removed ≡ w.removed) × ((report_progress i ns w).claims ≡ w.claims)
unfolding report_progress
rest-report_progress i [] w = (refl, refl)
rest-report_progress i (n ∷ ns) w = rest-report_progress i ns _
