-- ===== src/Util/Filename.antt =====
-- pkg/util/path.go: `SafeFilename` and what it calls. A name is the list of its bytes. `valid` stands
-- for `utf8.ValidString`, and `chars` lists the invalid characters of the platform, each one byte.
pub mod Bounds
pub mod Prefix
use gopeed_torbox.Base.{
  ℕ, zero, suc, ◌+◌, ◌-◌, Bool, true, false, ◌&&◌, ◌||◌, Option, none, some, List, [], ◌∷◌, ◌++◌,
  map, if◌then◌else◌, ltb, leb, ◌==◌, length, take, drop,
}

abbrev pub max_filename_length : ℕ
max_filename_length = 100

abbrev pub max_extension_length : ℕ
max_extension_length = 20

-- `/` and `:`, as on every platform but Windows.
abbrev pub invalid_path_chars : List ℕ
invalid_path_chars = 47 ∷ 58 ∷ []

-- `strings.ReplaceAll(s, c, "_")` for a character of one byte.
unfoldable pub replace_all : ℕ → List ℕ → List ℕ
replace_all c s = map (λ b. if b == c then 95 else b) s

unfoldable pub replace_invalid : List ℕ → List ℕ → List ℕ
unfolding replace_all
replace_invalid [] s = s
replace_invalid (c ∷ cs) s = replace_invalid cs (replace_all c s)

-- `strings.LastIndex`; `none` is -1.
unfoldable pub last_index : ℕ → List ℕ → Option ℕ
last_index c [] = none
last_index c (b ∷ bs) = elim (last_index c bs) [
  | some i ↦ some (suc i)
  | none ↦ if b == c then some 0 else none
]

-- Where the extension begins; the length of the name, if it has none.
unfoldable pub extension_start : List ℕ → ℕ
extension_start s = elim (last_index 46 s) [
  | none ↦ length s
  | some i ↦
      if ltb 0 i && (ltb (i + 1) (length s) && ltb (length s - i) max_extension_length)
      then i
      else length s
]

module _ (valid : List ℕ → Bool) where
  -- The loop that takes bytes off until the rest is valid.
  unfoldable pub truncate_down : ℕ → List ℕ → List ℕ
  truncate_down zero s = []
  truncate_down (suc n) s =
      let rest = truncate_down n s in if valid (take (suc n) s) then take (suc n) s else rest

  unfoldable pub truncate_at_valid_utf8_boundary : List ℕ → ℕ → List ℕ
  unfolding truncate_down
  truncate_at_valid_utf8_boundary s n = if leb (length s) n then s else truncate_down n s

  -- `availableLength < 1` is `maxLength <= len(ext)`.
  unfoldable pub truncate_filename : List ℕ → ℕ → List ℕ
  unfolding truncate_at_valid_utf8_boundary
  truncate_filename s n =
      let base = take (extension_start s) s in
      let ext = drop (extension_start s) s in
      if leb (length s) n
      then s
      else if leb n (length ext)
      then truncate_at_valid_utf8_boundary (base ++ ext) n
      else truncate_at_valid_utf8_boundary base (n - length ext) ++ ext

  unfoldable pub safe_filename : List ℕ → List ℕ → List ℕ
  unfolding truncate_filename replace_invalid
  safe_filename chars [] = []
  safe_filename chars (b ∷ bs) =
      truncate_filename (replace_invalid chars (b ∷ bs)) max_filename_length
