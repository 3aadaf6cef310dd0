-- ===== src/Util/Files.antt =====
-- pkg/util/path.go: `CheckDuplicateAndRename` and `SafeRemove`. A name is the list of its bytes, and
-- `stat` says what there is under a name in the directory. `sprintf` stands for `fmt.Sprintf` with a
-- template and a number.
pub mod Fresh
use gopeed_torbox.Base.{
  ℕ, zero, suc, ◌+◌, ◌-◌, Bool, true, false, ◌&&◌, ◌||◌, Option, none, some, List, [], ◌∷◌, ◌++◌,
  ltb, if◌then◌else◌, length, take, drop, ◌==◌,
}
use gopeed_torbox.Util.Filename.{last_index}

-- What `os.Stat` says of a path: there is a file, there is none, or another error.
pub data Stat : Type 0 where
  found not_exist failed : Stat

abbrev pub is_found : Stat → Bool
is_found found = true
is_found _ = false

abbrev pub is_not_exist : Stat → Bool
is_not_exist not_exist = true
is_not_exist _ = false

-- What `os.Remove` says of it, in the same words; the result is whether there is an error.
unfoldable pub safe_remove : Stat → Bool
safe_remove found = false
safe_remove not_exist = false
safe_remove failed = true

-- ` (%d)`
abbrev pub number_verb : List ℕ
number_verb = 32 ∷ 40 ∷ 37 ∷ 100 ∷ 41 ∷ []

-- Where `path.Ext` begins: at the last dot, or at the end.
unfoldable pub ext_start : List ℕ → ℕ
unfolding last_index
ext_start name = elim (last_index 46 name) [ none ↦ length name | some i ↦ i ]

-- The template of the new names. An extension that is empty, or the whole name, is not split off.
unfoldable pub name_template : List ℕ → List ℕ
unfolding ext_start
name_template name =
    let i = ext_start name in
    if i == length name || i == 0
    then name ++ number_verb
    else take i name ++ (number_verb ++ drop i name)

pub data Renamed : Type 0 where
  named : List ℕ → Renamed
  stat_error : Renamed

module _ (stat : List ℕ → Stat) (sprintf : List ℕ → ℕ → List ℕ) where
  -- The loop, on fuel: `none` is a loop that has not ended yet.
  unfoldable pub first_free : List ℕ → ℕ → ℕ → Option Renamed
  first_free template zero i = none
  first_free template (suc fuel) i =
      let rest = first_free template fuel (suc i) in
      let new_name = sprintf template i in
      if is_not_exist (stat new_name) then some (named new_name) else rest

  unfoldable pub check_duplicate_and_rename : ℕ → List ℕ → Option Renamed
  unfolding first_free name_template
  check_duplicate_and_rename fuel name = elim (stat name) [
    | not_exist ↦ some (named name)
    | failed ↦ some stat_error
    | found ↦ first_free (name_template name) fuel 1
  ]
