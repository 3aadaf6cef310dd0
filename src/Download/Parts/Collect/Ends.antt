-- ===== src/Download/Parts/Collect/Ends.antt =====
-- pkg/download/downloader.go: when the loops that collect files end, and with what.
use Prim.Native.String.{String, ◌++◌}
use gopeed_torbox.Base.{
  ℕ, zero, suc, ◌+◌, ◌≤◌, ◌<◌, ◌≡◌, refl, inl, inr, Bool, true, false, Option, none, some, List, [],
  ◌∷◌, map, if◌then◌else◌, arith, Bool-cases, dec_le,
}
use gopeed_torbox.Util.Files.{Stat, not_exist, is_found, is_not_exist}
use gopeed_torbox.Download.Parts.{
  Strings, seven_zip, rar_part, rar_old, zip_parts, zip_split, Style, of_pattern, rar_old_style,
}
use gopeed_torbox.Download.Parts.Collect.{
  with_file, and_last, until_not_exist, collect_sequential_files, collect_rar_new_style_files,
  collect_rar_old_style_files, collect_zip_split_files, collect_multi_part_files,
}

-- `n`, `n + 1`, and so on, `k` numbers.
abbrev pub numbers : ℕ → ℕ → List ℕ
numbers n zero = []
numbers n (suc k) = n ∷ numbers (suc n) k

abbrev Collected : Option (List String) → Type 0
Collected o = (fs : List String) × (o ≡ some fs)

with_file-Collected :
    (f : String) (o : Option (List String)) → Collected o → Collected (with_file f o)
with_file-Collected f o (fs, e) = (f ∷ fs, rw e refl)

and_last-Collected :
    (f : String) (o : Option (List String)) → Collected o → Collected (and_last f o)
and_last-Collected f o (fs, e) = rw e (_, refl)

if-Collected :
    (b : Bool) (o p : Option (List String))
    → Collected o
    → Collected p
    → Collected (if b then o else p)
if-Collected true o p h k = h
if-Collected false o p h k = k

module _ (stat : String → Stat) (path : ℕ → String) where
  -- Exactly the files before the first that does not exist.
  pub until_not_exist-first :
      (k n fuel : ℕ)
      → ((i : ℕ) → n ≤ i → i < n + k → is_not_exist (stat (path i)) ≡ false)
      → is_not_exist (stat (path (n + k))) ≡ true
      → k < fuel
      → until_not_exist stat path fuel n ≡ some (map path (numbers n k))
  unfolding until_not_exist
  until_not_exist-first k n zero before last h = absurd (omega (arith, h))
  until_not_exist-first zero n (suc fuel) before last h =
      let same : n + 0 ≡ n = omega arith in
      let ended : is_not_exist (stat (path n)) ≡ true = cc in rw (ended, until_not_exist) refl
  until_not_exist-first (suc k) n (suc fuel) before last h =
      let same : n + suc k ≡ suc n + k = omega arith in
      let ended : is_not_exist (stat (path (suc n + k))) ≡ true = cc in
      let rest =
        until_not_exist-first k (suc n) fuel
          (λ i l u. before i (omega (arith, l)) (omega (arith, u))) ended (omega (arith, h)) in
      rw (before n (omega arith) (omega arith), until_not_exist, rest) refl

  -- If os.Stat never says that a numbered part does not exist, as when it fails with another error
  -- each time, the loop of collectSequentialFiles does not end, with any number of rounds.
  pub until_not_exist-never :
      ((i : ℕ) → is_not_exist (stat (path i)) ≡ false)
      → (fuel n : ℕ) → until_not_exist stat path fuel n ≡ none
  unfolding until_not_exist
  until_not_exist-never h zero n = refl
  until_not_exist-never h (suc fuel) n =
      rw (h n, until_not_exist, until_not_exist-never h fuel (suc n)) refl

  until_not_exist-Collected :
      (bound : ℕ)
      → ((i : ℕ) → bound ≤ i → stat (path i) ≡ not_exist)
      → (fuel n : ℕ) → 0 < fuel
      → bound < n + fuel
      → Collected (until_not_exist stat path fuel n)
  unfolding until_not_exist
  until_not_exist-Collected bound gone zero n p h = absurd (omega (arith, p))
  until_not_exist-Collected bound gone (suc fuel) n p h =
      elim (Bool-cases (is_not_exist (stat (path n)))) [
        | inl e ↦ ([], rw (e, until_not_exist) refl)
        | inr e ↦
            let early : n < bound = ground (arith, e, gone n) in
            rw (e, until_not_exist)
              (with_file-Collected (path n) _ (
                until_not_exist-Collected bound gone fuel (suc n) (omega (arith, early, h))
                  (omega (arith, h))))
      ]

module _ (lib : Strings) (stat : String → Stat) (dir name : String) where
  abbrev part : String → ℕ → String
  part format i = lib.join dir (name ++ lib.sprintf format i)

  -- No part with a number from the bound on exists, as a format writes it.
  abbrev pub Gone : ℕ → String → Type 0
  Gone bound format = (i : ℕ) → bound ≤ i → stat (part format i) ≡ not_exist

  -- The same for the formats of a style.
  unfoldable pub GoneFor : ℕ → Option Style → Type 0
  GoneFor bound none = Unit
  GoneFor bound (some (of_pattern seven_zip)) = Gone bound ".%03d"
  GoneFor bound (some (of_pattern rar_part)) = Gone bound ".part%d.rar" × Gone bound ".part%02d.rar"
  GoneFor bound (some (of_pattern rar_old)) = Gone bound ".r%02d"
  GoneFor bound (some (of_pattern zip_parts)) = Gone bound ".%03d"
  GoneFor bound (some (of_pattern zip_split)) = Gone bound ".z%02d"
  GoneFor bound (some rar_old_style) = Gone bound ".r%02d"

  rar_new-Collected :
      (bound : ℕ)
      → Gone bound ".part%d.rar"
      → Gone bound ".part%02d.rar"
      → (fuel n : ℕ) → 0 < fuel
      → bound < n + fuel
      → Collected (collect_rar_new_style_files lib stat dir name fuel n)
  unfolding collect_rar_new_style_files
  rar_new-Collected bound gone also zero n p h = absurd (omega (arith, p))
  rar_new-Collected bound gone also (suc fuel) n p h = elim (dec_le bound n) [
    | yes l ↦ ([], rw (gone n l, also n l) refl)
    | no m ↦
        let early : n < bound = omega (arith, m) in
        let rest =
          rar_new-Collected bound gone also fuel (suc n) (omega (arith, early, h))
            (omega (arith, h)) in
        let found_single = is_found (stat (part ".part%d.rar" n)) in
        let found_double = is_found (stat (part ".part%02d.rar" n)) in
        if-Collected found_single _ _ (with_file-Collected (part ".part%d.rar" n) _ rest) (
          if-Collected found_double _ _ (with_file-Collected (part ".part%02d.rar" n) _ rest)
            ([], refl))
  ]

  collect_run :
      (bound : ℕ) (format : String) (n : ℕ)
      → Gone bound format
      → Collected (until_not_exist stat (part format) (suc bound) n)
  collect_run bound format n gone =
      until_not_exist-Collected stat (part format) bound gone (suc bound) n (omega arith)
        (omega arith)

  old :
      (bound : ℕ)
      → Gone bound ".r%02d"
      → Collected (collect_rar_old_style_files lib stat dir name (suc bound))
  unfolding collect_rar_old_style_files
  old bound gone =
      if-Collected _ _ _ (with_file-Collected _ _ (collect_run bound ".r%02d" 0 gone))
        (collect_run bound ".r%02d" 0 gone)

  sequential :
      (bound : ℕ)
      → Gone bound ".%03d"
      → lib.trim_suffix name (lib.ext name) ++ lib.ext name ≡ name
      → Collected (collect_sequential_files lib stat dir name (suc bound) ".%03d")
  unfolding collect_sequential_files
  sequential bound gone whole = rw whole (collect_run bound ".%03d" 1 gone)

  -- If no part with a number from some bound on exists, in the formats that the archive's style
  -- uses, and the archive's base name is its stem and its suffix, then one round more than the
  -- bound is enough for collectMultiPartFiles to end, for every style of archive.
  pub collect_multi_part_files-Collected :
      (bound : ℕ) (style : Option Style)
      → GoneFor bound style
      → lib.trim_suffix name (lib.ext name) ++ lib.ext name ≡ name
      → Collected (collect_multi_part_files lib stat dir name (suc bound) style)
  unfolding collect_multi_part_files collect_sequential_files collect_rar_old_style_files
      collect_zip_split_files GoneFor
  collect_multi_part_files-Collected bound none gone whole = ([], refl)
  collect_multi_part_files-Collected bound (some (of_pattern seven_zip)) gone whole =
      sequential bound gone whole
  collect_multi_part_files-Collected bound (some (of_pattern rar_part)) (gone, also) whole =
      rar_new-Collected bound gone also (suc bound) 1 (omega arith) (omega arith)
  collect_multi_part_files-Collected bound (some (of_pattern rar_old)) gone whole = old bound gone
  collect_multi_part_files-Collected bound (some (of_pattern zip_parts)) gone whole =
      sequential bound gone whole
  collect_multi_part_files-Collected bound (some (of_pattern zip_split)) gone whole =
      if-Collected _ _ _ (and_last-Collected _ _ (collect_run bound ".z%02d" 1 gone))
        (collect_run bound ".z%02d" 1 gone)
  collect_multi_part_files-Collected bound (some rar_old_style) gone whole = old bound gone
