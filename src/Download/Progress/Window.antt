-- ===== src/Download/Progress/Window.antt =====
-- pkg/download/model.go: the samples over which `calcSpeed` takes its average.
use gopeed_torbox.Base.{
  ℕ, zero, suc, ◌+◌, ◌-◌, ◌≤◌, ◌≡◌, refl, sym, ◌∙◌, ap, true, false, List, [], ◌∷◌, ◌++◌, ltb,
  if◌then◌else◌, length, length-append, drop, arith, append_assoc, append-nil, dec_lt,
}
use gopeed_torbox.Download.Progress.{record_sample}

-- The samples kept after a list of them, oldest first.
unfoldable pub record_samples : ℕ → List ℕ → List ℕ → List ℕ
unfolding record_sample
record_samples limit kept [] = kept
record_samples limit kept (x ∷ xs) = record_samples limit (record_sample limit kept x) xs

drop-last :
    (n : ℕ) (xs : List ℕ) (x : ℕ) → n ≤ length xs → drop n xs ++ x ∷ [] ≡ drop n (xs ++ x ∷ [])
drop-last zero xs x h = refl
drop-last (suc n) [] x h = absurd (omega (arith, h))
drop-last (suc n) (y ∷ ys) x h = drop-last n ys x (omega (arith, h))

length-drop : (n : ℕ) (xs : List ℕ) → length (drop n xs) ≡ length xs - n
length-drop zero xs = omega arith
length-drop (suc n) [] = omega arith
length-drop (suc n) (x ∷ xs) = omega (arith, length-drop n xs)

drop-drop : (n : ℕ) (xs : List ℕ) → drop 1 (drop n xs) ≡ drop (suc n) xs
drop-drop zero [] = refl
drop-drop zero (x ∷ xs) = refl
drop-drop (suc n) [] = refl
drop-drop (suc n) (x ∷ xs) = drop-drop n xs

trim :
    (limit n : ℕ) (l : List ℕ)
    → length l ≡ n + 1
    → (if ltb limit (length (drop (n - limit) l))
        then drop 1 (drop (n - limit) l)
        else drop (n - limit) l)
      ≡ drop (length l - limit) l
trim limit n l h = elim (dec_lt n limit) [
  | yes p ↦
      let test : ltb limit (length (drop (n - limit) l)) ≡ false =
        ground (arith, length-drop (n - limit) l, h, p) in
      let same : n - limit ≡ length l - limit = omega (arith, h, p) in
      rw test (ap (λ i. drop i l) same)
  | no q ↦
      let test : ltb limit (length (drop (n - limit) l)) ≡ true =
        ground (arith, length-drop (n - limit) l, h, q) in
      let same : suc (n - limit) ≡ length l - limit = omega (arith, h, q) in
      rw test (drop-drop (n - limit) l ∙ ap (λ i. drop i l) same)
]

drop-nil : (n : ℕ) → drop {A = ℕ} n [] ≡ []
drop-nil zero = refl
drop-nil (suc n) = refl

record-drop :
    (limit : ℕ) (xs : List ℕ) (x : ℕ)
    → record_sample limit (drop (length xs - limit) xs) x
      ≡ drop (length (xs ++ x ∷ []) - limit) (xs ++ x ∷ [])
unfolding record_sample
record-drop limit xs x =
    ap (λ more. if ltb limit (length more) then drop 1 more else more)
      (drop-last (length xs - limit) xs x (omega arith))
    ∙ trim limit (length xs) (xs ++ x ∷ []) (length-append xs (x ∷ []))

samples-drop :
    (limit : ℕ) (before xs : List ℕ)
    → record_samples limit (drop (length before - limit) before) xs
      ≡ drop (length (before ++ xs) - limit) (before ++ xs)
unfolding record_samples
samples-drop limit before [] = rw (append-nil before) refl
samples-drop limit before (x ∷ xs) =
    ap (λ k. record_samples limit k xs) (record-drop limit before x)
    ∙ samples-drop limit (before ++ x ∷ []) xs
    ∙ ap (λ l. drop (length l - limit) l) (append_assoc before (x ∷ []) xs)

-- The samples over which calcSpeed averages, after any series of calls from an empty list, are the
-- last ones of the series, as many as the limit allows.
pub record_samples-last :
    (limit : ℕ) (xs : List ℕ) → record_samples limit [] xs ≡ drop (length xs - limit) xs
record_samples-last limit xs =
    ap (λ k. record_samples limit k xs) (sym (drop-nil (0 - limit))) ∙ samples-drop limit [] xs
