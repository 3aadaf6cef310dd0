-- ===== src/Download/Tests/Extraction.antt =====
-- Examples for the extraction of archives.
use Prim.Native.String.{String}
use text.Mathlib.Text.{◌==◌ as str_eq}
use gopeed_torbox.Base.{◌≡◌, refl, Bool, true, false, not, List, [], ◌∷◌, ◌++◌, map}
use gopeed_torbox.Download.MultiPart.{without_name}
use gopeed_torbox.Download.Extraction.{
  ExtractTask, Extractions, waiting_parts, none_yet, perform_multi_part_extraction,
}
use gopeed_torbox.Download.Extraction.Settled.{outcome, kept_if, perform_multi-settles}

abbrev part : String → String → ExtractTask
part i base = record {
  id = i;
  progress = record { status = waiting_parts; percent = 0; multi_part_base_name = base };
  stored = record { status = none_yet; percent = 0; multi_part_base_name = base };
}

abbrev parts : Extractions
parts = record {
  tasks = part "1" "a" ∷ part "2" "a" ∷ part "3" "b" ∷ [];
  removed = [];
  claims = "dir/a" ∷ [];
}

-- The third task cannot be stored.
abbrev storable : ExtractTask → Bool
storable t = not (str_eq t.id "3")

abbrev removable : String → Bool
removable f = str_eq f "a.1"

abbrev files : List String
files = "a.1" ∷ "a.2" ∷ []

-- The second file cannot be removed.
perform_multi-settles_example :
    let e =
      perform_multi_part_extraction storable removable "1" "a" "dir/a"
        (50 ∷ [])
        false
        files
        true
        parts in
    (e.tasks ≡ map (outcome storable "1" "a" (50 ∷ []) false) parts.tasks)
    × (e.removed ≡ [] ++ kept_if removable files)
    × (e.claims ≡ without_name "dir/a" ("dir/a" ∷ []))
perform_multi-settles_example =
    perform_multi-settles storable removable "1" "a" "dir/a" (50 ∷ []) false files true parts refl
