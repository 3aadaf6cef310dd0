-- ===== src/Download/Parts.antt =====
-- pkg/download/extract.go and downloader.go: the parts of an archive, by their file names, and the
-- loops that collect the files of an archive.
pub mod Numbers
pub mod Collect
use Prim.Native.String.{String, ◌++◌}
use gopeed_torbox.Base.{
  ℕ, ◌+◌, ◌-◌, ◌*◌, Bool, true, false, not, ◌&&◌, ◌||◌, Option, none, some, List, [], ◌∷◌,
  if◌then◌else◌, leb, ◌==◌,
}
use gopeed_torbox.Util.Files.{Stat, is_found}

-- Functions of the standard library on strings and paths.
pub record Strings : Type 0 where
  pub dir : String → String
  pub base : String → String
  pub ext : String → String
  pub join : String → String → String
  pub to_lower : String → String
  pub has_suffix : String → String → Bool
  pub contains : String → String → Bool
  pub trim_suffix : String → String → String
  pub sprintf : String → ℕ → String

-- `multiPartArchivePatterns`, in their order.
pub data Pattern : Type 0 where
  seven_zip rar_part rar_old zip_parts zip_split : Pattern

-- What `ArchivePartInfo.Pattern` tells apart: a pattern, or "rar-old-style".
pub data Style : Type 0 where
  of_pattern : Pattern → Style
  rar_old_style : Style

pub record ArchivePartInfo : Type 0 where
  pub base_name : String
  pub part_number : ℕ
  pub first_part_path : String
  pub style : Style

-- `parsePartNumber`, on the codes of the characters.
unfoldable pub digits : List ℕ → ℕ → ℕ
digits [] n = n
digits (c ∷ cs) n = digits cs (if leb 48 c && leb c 57 then n * 10 + (c - 48) else n)

unfoldable pub parse_part_number : List ℕ → ℕ
unfolding digits
parse_part_number s = let n = digits s 0 in if n == 0 then 1 else n

abbrev pub patterns : List Pattern
patterns = seven_zip ∷ rar_part ∷ rar_old ∷ zip_parts ∷ zip_split ∷ []

-- `find` stands for `FindStringSubmatch`: the base name and the codes of the part number.
module _ (lib : Strings) (stat : String → Stat)
    (find : Pattern → String → Option (String × List ℕ)) where
  unfoldable pub determine_first_part_path : String → String → Pattern → String
  determine_first_part_path dir name seven_zip = lib.join dir (name ++ ".001")
  determine_first_part_path dir name rar_part =
      let p = lib.join dir (name ++ ".part1.rar") in
      if is_found (stat p) then p else lib.join dir (name ++ ".part01.rar")
  determine_first_part_path dir name rar_old = lib.join dir (name ++ ".rar")
  determine_first_part_path dir name zip_parts = lib.join dir (name ++ ".001")
  determine_first_part_path dir name zip_split = lib.join dir (name ++ ".z01")

  abbrev pub info_of : String → Pattern → String × List ℕ → ArchivePartInfo
  unfolding parse_part_number determine_first_part_path
  info_of filename p (name, number) = record {
    base_name = name;
    part_number = parse_part_number number;
    first_part_path = determine_first_part_path (lib.dir filename) name p;
    style = of_pattern p;
  }

  abbrev pub first_match : String → List Pattern → Option ArchivePartInfo
  first_match filename [] = none
  first_match filename (p ∷ ps) = elim (find p (lib.base filename)) [
    | none ↦ first_match filename ps
    | some m ↦ some (info_of filename p m)
  ]

  -- The `.rar` file of an old-style archive.
  unfoldable pub old_style_rar : String → Option ArchivePartInfo
  old_style_rar filename =
      let name = lib.base filename in
      let stem = lib.trim_suffix name (lib.ext name) in
      if lib.has_suffix (lib.to_lower name) ".rar" && not (lib.contains (lib.to_lower name) ".part")
      then if is_found (stat (lib.join (lib.dir filename) (stem ++ ".r00")))
        then some (record {
          base_name = stem;
          part_number = 1;
          first_part_path = filename;
          style = rar_old_style;
        })
        else none
      else none

  -- `none` is an info without `IsMultiPart`.
  unfoldable pub get_archive_part_info : String → Option ArchivePartInfo
  unfolding old_style_rar
  get_archive_part_info filename = elim (first_match filename patterns) [
    | some info ↦ some info
    | none ↦ old_style_rar filename
  ]

  abbrev pub is_first : String → Option ArchivePartInfo → Bool
  is_first filename none = false
  is_first filename (some info) = elim info.style [
    | rar_old_style ↦ lib.has_suffix (lib.to_lower filename) ".rar"
    | of_pattern p ↦ info.part_number == 1
  ]

  unfoldable pub is_first_part : String → Bool
  unfolding get_archive_part_info
  is_first_part filename = is_first filename (get_archive_part_info filename)

  unfoldable pub get_multi_part_archive_base_name : String → String
  unfolding get_archive_part_info
  get_multi_part_archive_base_name filename = elim (get_archive_part_info filename) [
    | none ↦ ""
    | some info ↦ lib.join (lib.dir filename) info.base_name
  ]
