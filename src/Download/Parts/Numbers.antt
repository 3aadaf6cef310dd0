-- ===== src/Download/Parts/Numbers.antt =====
-- pkg/download/extract.go: part numbers, and which part is the first.
use Prim.Native.String.{String}
use gopeed_torbox.Base.{
  ℕ, zero, suc, ◌+◌, ◌-◌, ◌*◌, ◌/◌, ◌%◌, ◌<◌, ◌≡◌, refl, ◌∙◌, true, ◌&&◌, Option, none, some, List,
  [], ◌∷◌, ◌++◌, if◌then◌else◌, leb, ◌==◌, arith,
}
use gopeed_torbox.Util.Files.{Stat}
use gopeed_torbox.Download.Parts.{
  Strings, Pattern, seven_zip, rar_part, rar_old, digits, parse_part_number, get_archive_part_info,
  is_first_part, info_of,
}

-- A number in decimal, padded with zeros to `w` digits.
unfoldable pub padded : ℕ → ℕ → List ℕ
padded zero n = []
padded (suc w) n = padded w (n / 10) ++ (48 + n % 10) ∷ []

-- The largest number of `w` digits, and one.
abbrev pub ten_to : ℕ → ℕ
ten_to zero = 1
ten_to (suc w) = 10 * ten_to w

digits-append : (xs ys : List ℕ) (n : ℕ) → digits (xs ++ ys) n ≡ digits ys (digits xs n)
unfolding digits
digits-append [] ys n = refl
digits-append (x ∷ xs) ys n =
    digits-append xs ys (if leb 48 x && leb x 57 then n * 10 + (x - 48) else n)

digits-padded : (w n : ℕ) → n < ten_to w → digits (padded w n) 0 ≡ n
unfolding padded digits
digits-padded zero n h = omega (arith, h)
digits-padded (suc w) n h =
    let rest = digits-padded w (n / 10) (omega (arith, h)) in
    digits-append (padded w (n / 10)) ((48 + n % 10) ∷ []) 0 ∙ ground (arith, rest)

-- The number of a part is read from its padded decimal form; zero is read as one.
pub parse_part_number-padded :
    (w n : ℕ) → n < ten_to w → parse_part_number (padded w n) ≡ (if n == 0 then 1 else n)
unfolding parse_part_number
parse_part_number-padded w n h = rw (digits-padded w n h) refl

module _ (lib : Strings) (stat : String → Stat)
    (find : Pattern → String → Option (String × List ℕ)) where
  -- If two files have the base names of the parts 00 and 01 of an old-style RAR archive, and match
  -- no pattern before that one, then isFirstPart is true of both.
  pub old_parts-first :
      (f g name : String)
      → find seven_zip (lib.base f) ≡ none
      → find rar_part (lib.base f) ≡ none
      → find rar_old (lib.base f) ≡ some (name, 48 ∷ 48 ∷ [])
      → find seven_zip (lib.base g) ≡ none
      → find rar_part (lib.base g) ≡ none
      → find rar_old (lib.base g) ≡ some (name, 48 ∷ 49 ∷ [])
      → (is_first_part lib stat find f ≡ true) × (is_first_part lib stat find g ≡ true)
  unfolding is_first_part get_archive_part_info info_of parse_part_number digits
  old_parts-first f g name a b c d e h = (rw (a, b, c) refl, rw (d, e, h) refl)
