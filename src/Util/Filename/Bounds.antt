-- ===== src/Util/Filename/Bounds.antt =====
-- pkg/util/path.go: the length and the characters of what `SafeFilename` returns.
use gopeed_torbox.Base.{
  ℕ, zero, suc, ◌-◌, ◌≤◌, ◌≡◌, ◌≢◌, refl, ap, ◌∙◌, sym, subst, Bool, true, false, ◌||◌, List, [],
  ◌∷◌, ◌++◌, ◌==◌, length, take, drop, length-take, length-append, arith, Bool-cases, inl, inr,
}
use gopeed_torbox.Util.Filename.{
  replace_all, replace_invalid, extension_start, truncate_down, truncate_at_valid_utf8_boundary,
  truncate_filename, safe_filename, max_filename_length,
}

abbrev pub has : ℕ → List ℕ → Bool
has c [] = false
has c (b ∷ bs) = b == c || has c bs

has-take : (c n : ℕ) (s : List ℕ) → has c s ≡ false → has c (take n s) ≡ false
has-take c zero s h = refl
has-take c (suc n) [] h = refl
has-take c (suc n) (b ∷ bs) h = ground (arith, has-take c n bs)

has-drop : (c n : ℕ) (s : List ℕ) → has c s ≡ false → has c (drop n s) ≡ false
has-drop c zero s h = h
has-drop c (suc n) [] h = refl
has-drop c (suc n) (b ∷ bs) h = has-drop c n bs (ground arith)

has-append : (c : ℕ) (s t : List ℕ) → has c s ≡ false → has c t ≡ false → has c (s ++ t) ≡ false
has-append c [] t h k = k
has-append c (b ∷ bs) t h k = ground (arith, has-append c bs t)

-- What one replacement does to a character.
has-replace_all :
    (c d : ℕ) (s : List ℕ) → 95 ≢ c → has c s ≡ false → has c (replace_all d s) ≡ false
unfolding replace_all
has-replace_all c d [] n h = refl
has-replace_all c d (b ∷ bs) n h = ground (arith, has-replace_all c d bs n)

has-replace_all_self : (c : ℕ) (s : List ℕ) → 95 ≢ c → has c (replace_all c s) ≡ false
unfolding replace_all
has-replace_all_self c [] n = refl
has-replace_all_self c (b ∷ bs) n = ground (arith, has-replace_all_self c bs n)

has-replace_invalid_keeps :
    (c : ℕ) (chars s : List ℕ) → 95 ≢ c → has c s ≡ false → has c (replace_invalid chars s) ≡ false
unfolding replace_invalid
has-replace_invalid_keeps c [] s n h = h
has-replace_invalid_keeps c (d ∷ ds) s n h =
    has-replace_invalid_keeps c ds (replace_all d s) n (has-replace_all c d s n h)

has-replace_invalid :
    (c : ℕ) (chars s : List ℕ)
    → 95 ≢ c
    → has c chars ≡ true
    → has c (replace_invalid chars s) ≡ false
unfolding replace_invalid
has-replace_invalid c [] s n h = cc
has-replace_invalid c (d ∷ ds) s n h = elim (Bool-cases (d == c)) [
  | inl e ↦
      let same : d ≡ c = ground arith in
      has-replace_invalid_keeps c ds (replace_all d s) n
        (subst (λ u. has c (replace_all u s) ≡ false) (sym same) (has-replace_all_self c s n))
  | inr e ↦ has-replace_invalid c ds (replace_all d s) n (ground arith)
]

replace_all_same : (c : ℕ) (s : List ℕ) → has c s ≡ false → replace_all c s ≡ s
unfolding replace_all
replace_all_same c [] h = refl
replace_all_same c (b ∷ bs) h = ground (arith, replace_all_same c bs)

replace_invalid_same :
    (chars s : List ℕ)
    → ((c : ℕ) → has c chars ≡ true → has c s ≡ false)
    → replace_invalid chars s ≡ s
unfolding replace_invalid
replace_invalid_same [] s h = refl
replace_invalid_same (c ∷ cs) s h =
    ap (replace_invalid cs) (replace_all_same c s (h c (ground arith)))
    ∙ replace_invalid_same cs s (λ d k. h d (ground arith))

module _ (valid : List ℕ → Bool) where
  length-truncate_down : (n : ℕ) (s : List ℕ) → length (truncate_down valid n s) ≤ n
  unfolding truncate_down
  length-truncate_down zero s = omega arith
  length-truncate_down (suc n) s = ground (arith, length-truncate_down n s, length-take (suc n) s)

  length-truncate_at : (s : List ℕ) (n : ℕ) → length (truncate_at_valid_utf8_boundary valid s n) ≤ n
  unfolding truncate_at_valid_utf8_boundary
  length-truncate_at s n = ground (arith, length-truncate_down n s)

  length-truncate_filename : (s : List ℕ) (n : ℕ) → length (truncate_filename valid s n) ≤ n
  unfolding truncate_filename
  length-truncate_filename s n =
      let base = take (extension_start s) s in
      let ext = drop (extension_start s) s in
      ground (
        arith,
        length-truncate_at (base ++ ext) n,
        length-truncate_at base (n - length ext),
        length-append (truncate_at_valid_utf8_boundary valid base (n - length ext)) ext,
      )

  has-truncate_down :
      (c n : ℕ) (s : List ℕ) → has c s ≡ false → has c (truncate_down valid n s) ≡ false
  unfolding truncate_down
  has-truncate_down c zero s h = refl
  has-truncate_down c (suc n) s h =
      ground (arith, has-truncate_down c n s h, has-take c (suc n) s h)

  has-truncate_at :
      (c : ℕ) (s : List ℕ) (n : ℕ)
      → has c s ≡ false
      → has c (truncate_at_valid_utf8_boundary valid s n) ≡ false
  unfolding truncate_at_valid_utf8_boundary
  has-truncate_at c s n h = ground (arith, has-truncate_down c n s h)

  has-truncate_filename :
      (c : ℕ) (s : List ℕ) (n : ℕ) → has c s ≡ false → has c (truncate_filename valid s n) ≡ false
  unfolding truncate_filename
  has-truncate_filename c s n h =
      let base = take (extension_start s) s in
      let ext = drop (extension_start s) s in
      let b = has-take c (extension_start s) s h in
      let e = has-drop c (extension_start s) s h in
      ground (
        arith,
        has-truncate_at c (base ++ ext) n (has-append c base ext b e),
        has-append c (truncate_at_valid_utf8_boundary valid base (n - length ext)) ext
            (has-truncate_at c base (n - length ext) b) e,
      )

  -- A safe file name has at most 100 bytes.
  pub length-safe_filename :
      (chars s : List ℕ) → length (safe_filename valid chars s) ≤ max_filename_length
  unfolding safe_filename
  length-safe_filename chars [] = omega arith
  length-safe_filename chars (b ∷ bs) =
      length-truncate_filename (replace_invalid chars (b ∷ bs)) max_filename_length

  -- A safe file name has none of the invalid characters, if the underscore is not one of them.
  pub has-safe_filename :
      (chars s : List ℕ) (c : ℕ)
      → has 95 chars ≡ false
      → has c chars ≡ true
      → has c (safe_filename valid chars s) ≡ false
  unfolding safe_filename
  has-safe_filename chars [] c u h = refl
  has-safe_filename chars (b ∷ bs) c u h =
      has-truncate_filename c (replace_invalid chars (b ∷ bs)) max_filename_length
        (has-replace_invalid c chars (b ∷ bs) (λ e. absurd (cc)) h)

  truncate_short : (s : List ℕ) (n : ℕ) → length s ≤ n → truncate_filename valid s n ≡ s
  unfolding truncate_filename
  truncate_short s n h = ground arith

  safe_same :
      (chars s : List ℕ)
      → length s ≤ max_filename_length
      → ((c : ℕ) → has c chars ≡ true → has c s ≡ false)
      → safe_filename valid chars s ≡ s
  unfolding safe_filename
  safe_same chars [] l h = refl
  safe_same chars (b ∷ bs) l h =
      ap (λ t. truncate_filename valid t max_filename_length)
        (replace_invalid_same chars (b ∷ bs) h)
      ∙ truncate_short (b ∷ bs) max_filename_length l

  -- A safe file name is its own safe name, if the underscore is not an invalid character.
  pub safe_filename-safe_filename :
      (chars s : List ℕ)
      → has 95 chars ≡ false
      → safe_filename valid chars (safe_filename valid chars s) ≡ safe_filename valid chars s
  safe_filename-safe_filename chars s u =
      safe_same chars (safe_filename valid chars s) (length-safe_filename chars s)
        (λ c. has-safe_filename chars s c u)
