-- ===== src/Download/Parts/Collect.antt =====
-- pkg/download/downloader.go: the loops that collect the files of an archive.
pub mod Ends
use Prim.Native.String.{String, ◌++◌}
use gopeed_torbox.Base.{
  ℕ, zero, suc, ◌+◌, ◌≤◌, ◌<◌, ◌≡◌, refl, Bool, true, false, Option, none, some, List, [], ◌∷◌,
  if◌then◌else◌, arith,
}
use gopeed_torbox.Util.Files.{Stat, is_found, is_not_exist}
use gopeed_torbox.Download.Parts.{
  Strings, Pattern, seven_zip, rar_part, rar_old, zip_parts, zip_split, Style, of_pattern,
  rar_old_style, ArchivePartInfo,
}

-- The loops, on fuel. `none` is a loop that has not ended yet.
abbrev pub with_file : String → Option (List String) → Option (List String)
with_file f none = none
with_file f (some fs) = some (f ∷ fs)

abbrev pub snoc {ℓ} : {A : Type ℓ} → List A → A → List A
snoc [] y = y ∷ []
snoc (x ∷ xs) y = x ∷ snoc xs y

abbrev pub and_last : String → Option (List String) → Option (List String)
and_last f none = none
and_last f (some fs) = some (snoc fs f)

module _ (stat : String → Stat) where
  -- `for { if not exist(path n) { break }; files = append(files, path n); n++ }`
  unfoldable pub until_not_exist : (ℕ → String) → ℕ → ℕ → Option (List String)
  until_not_exist path zero n = none
  until_not_exist path (suc fuel) n = elim (is_not_exist (stat (path n))) [
    | true ↦ some []
    | false ↦ with_file (path n) (until_not_exist path fuel (suc n))
  ]

module _ (lib : Strings) (stat : String → Stat) (dir name : String) where
  -- The base name without its suffix, and the suffix, are the base name.
  unfoldable pub collect_sequential_files : ℕ → String → Option (List String)
  unfolding until_not_exist
  collect_sequential_files fuel format =
      let suffix = lib.ext name in
      let stem = lib.trim_suffix name suffix in
      until_not_exist stat (λ n. lib.join dir ((stem ++ suffix) ++ lib.sprintf format n)) fuel 1

  unfoldable pub collect_rar_new_style_files : ℕ → ℕ → Option (List String)
  collect_rar_new_style_files zero n = none
  collect_rar_new_style_files (suc k) n =
      let single = lib.join dir (name ++ lib.sprintf ".part%d.rar" n) in
      let double = lib.join dir (name ++ lib.sprintf ".part%02d.rar" n) in
      let rest = collect_rar_new_style_files k (suc n) in
      if is_found (stat single)
      then with_file single rest
      else if is_found (stat double)
      then with_file double rest
      else some []

  unfoldable pub collect_rar_old_style_files : ℕ → Option (List String)
  unfolding until_not_exist
  collect_rar_old_style_files fuel =
      let rar = lib.join dir (name ++ ".rar") in
      let parts =
        until_not_exist stat (λ n. lib.join dir (name ++ lib.sprintf ".r%02d" n)) fuel 0 in
      if is_found (stat rar) then with_file rar parts else parts

  unfoldable pub collect_zip_split_files : ℕ → Option (List String)
  unfolding until_not_exist
  collect_zip_split_files fuel =
      let zip = lib.join dir (name ++ ".zip") in
      let parts =
        until_not_exist stat (λ n. lib.join dir (name ++ lib.sprintf ".z%02d" n)) fuel 1 in
      if is_found (stat zip) then and_last zip parts else parts

  -- `collectMultiPartFiles`, for the info of the first part.
  unfoldable pub collect_multi_part_files : ℕ → Option Style → Option (List String)
  unfolding collect_sequential_files collect_rar_new_style_files collect_rar_old_style_files
      collect_zip_split_files
  collect_multi_part_files fuel none = some []
  collect_multi_part_files fuel (some (of_pattern seven_zip)) =
      collect_sequential_files fuel ".%03d"
  collect_multi_part_files fuel (some (of_pattern rar_part)) = collect_rar_new_style_files fuel 1
  collect_multi_part_files fuel (some (of_pattern rar_old)) = collect_rar_old_style_files fuel
  collect_multi_part_files fuel (some (of_pattern zip_parts)) =
      collect_sequential_files fuel ".%03d"
  collect_multi_part_files fuel (some (of_pattern zip_split)) = collect_zip_split_files fuel
  collect_multi_part_files fuel (some rar_old_style) = collect_rar_old_style_files fuel
