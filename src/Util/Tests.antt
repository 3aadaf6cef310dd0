-- ===== src/Util/Tests.antt =====
-- Examples for file names.
use gopeed_torbox.Base.{
  ℕ, ◌≤◌, ◌≡◌, refl, Bool, true, List, [], ◌∷◌, length, take, ltb, ◌&&◌, arith, ◌+◌, ◌==◌,
  if◌then◌else◌, ◌++◌, some, none, Option, bytes_eq, false,
}
use gopeed_torbox.Util.Files.{
  Stat, found, not_exist, named, check_duplicate_and_rename, name_template, ext_start,
}
use gopeed_torbox.Util.Files.Fresh.{FirstFree, check_duplicate-FirstFree}
use gopeed_torbox.Util.Match.{Url, match_url, has_byte, slashed_path, has_suffix}
use gopeed_torbox.Util.Match.Parsed.{print_pattern, same_place, match_url-literal}
use gopeed_torbox.Util.Filename.{last_index, truncate_at_valid_utf8_boundary}
use gopeed_torbox.Util.Filename.Prefix.{truncate-longest}

-- `a://b/c/`
abbrev place : Url
place = record { scheme = 97 ∷ []; hostname = 98 ∷ []; path = 47 ∷ 99 ∷ 47 ∷ [] }

-- Texts of one byte are read as it.
abbrev parse_place : List ℕ → Option Url
parse_place u = if length u == 1 then some place else none

match_url-literal_example :
    match_url
      (λ pattern s. false)
      parse_place
      (print_pattern (97 ∷ []) (98 ∷ []) (99 ∷ []))
      (117 ∷ [])
    ≡ true
unfolding has_byte same_place bytes_eq slashed_path has_suffix
match_url-literal_example =
    match_url-literal (λ pattern s. false) parse_place (97 ∷ []) (98 ∷ []) (99 ∷ []) (117 ∷ []) refl
      refl refl

-- A string of which every byte is an ASCII character is valid.
abbrev ascii : List ℕ → Bool
ascii [] = true
ascii (b ∷ bs) = ltb b 128 && ascii bs

-- `a/b.c`
abbrev name : List ℕ
name = 97 ∷ 47 ∷ 98 ∷ 46 ∷ 99 ∷ []

truncate-longest_example :
    (ascii (truncate_at_valid_utf8_boundary ascii name 2) ≡ true)
    × ((k : ℕ)
        → k ≤ 2
        → ascii (take k name) ≡ true
        → k ≤ length (truncate_at_valid_utf8_boundary ascii name 2))
truncate-longest_example = truncate-longest ascii name 2 refl (omega arith)

-- Names of one byte are taken, and ` (%d)` is replaced by one digit.
abbrev taken : List ℕ → Stat
taken s = if length s == 1 then found else not_exist

abbrev with_digit : List ℕ → ℕ → List ℕ
with_digit template i = template ++ (48 + i) ∷ []

check_duplicate-FirstFree_example :
    (n : ℕ) × (check_duplicate_and_rename taken with_digit 1 (97 ∷ [])
      ≡ some (named (with_digit (name_template (97 ∷ [])) n)))
    × FirstFree taken with_digit (name_template (97 ∷ [])) 1 n
unfolding name_template ext_start last_index
check_duplicate-FirstFree_example =
    check_duplicate-FirstFree taken with_digit (97 ∷ []) 1 refl (omega arith) refl
