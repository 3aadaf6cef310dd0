-- ===== src/Http/Disposition/Slices.antt =====
-- internal/protocol/http/helper.go: the slices of a parameter's value are in range.
use gopeed_torbox.Base.{
  ℕ, zero, suc, ◌+◌, ◌-◌, ◌≤◌, ◌<◌, ◌≡◌, refl, Bool-cases, inl, inr, Option, none, some, List, [],
  ◌∷◌, length, get_elem?, leb, arith,
}
use gopeed_torbox.Http.Disposition.{
  first_semicolon, quoted_end, unquoted_end, end_of, slice, cut, unquote, without_quotes,
  find_param_value_end, trimmed_value, param_value,
}

first_semicolon-le : (n i : ℕ) (cs : List ℕ) → first_semicolon i cs ≡ some n → n ≤ i + length cs
unfolding first_semicolon
first_semicolon-le n i [] h = ground arith
first_semicolon-le n i (c ∷ cs) h =
    let later = first_semicolon-le n (suc i) cs in ground (arith, h, later)

quoted_end-le :
    (n quote previous i : ℕ) (cs : List ℕ)
    → quoted_end quote previous i cs ≡ some n
    → n ≤ i + length cs
unfolding quoted_end
quoted_end-le n quote previous i [] h = ground arith
quoted_end-le n quote previous i (c ∷ cs) h =
    let later = quoted_end-le n quote c (suc i) cs in
    let here = first_semicolon-le n (suc i) cs in ground (arith, h, later, here)

unquoted_end-le :
    (n : ℕ) (passed : List ℕ) (i : ℕ) (cs : List ℕ)
    → unquoted_end passed i cs ≡ some n
    → n ≤ i + length cs
unfolding unquoted_end
unquoted_end-le n passed i [] h = ground arith
unquoted_end-le n passed i (c ∷ cs) h =
    let later = unquoted_end-le n (c ∷ passed) (suc i) cs in ground (arith, h, later)

-- The end of a value is in it.
end_of-le : (n : ℕ) (s : List ℕ) → end_of s ≡ some n → n ≤ length s
unfolding end_of
end_of-le n [] h = ground arith
end_of-le n (c ∷ cs) h =
    let inside = quoted_end-le n c c 1 cs in
    let plain = unquoted_end-le n [] 0 (c ∷ cs) in ground (arith, h, inside, plain)

cut-total :
    (value : List ℕ) (r : Option ℕ)
    → ((n : ℕ) → r ≡ some n → n ≤ length value)
    → ¬ (cut value r ≡ none)
unfolding cut slice
cut-total value none h = λ p. ground (arith, p)
cut-total value (some n) h = let le = h n refl in λ p. ground (arith, le, p)

get_elem?-inside : (xs : List ℕ) (i : ℕ) → i < length xs → ¬ (get_elem? xs i ≡ none)
get_elem?-inside [] i h = λ p. ground (arith, h)
get_elem?-inside (x ∷ xs) zero h = λ p. ground (arith, p)
get_elem?-inside (x ∷ xs) (suc i) h = get_elem?-inside xs i (omega (arith, h))

unquote-total :
    (value : List ℕ) (first last : Option ℕ)
    → 2 ≤ length value
    → ¬ (first ≡ none)
    → ¬ (last ≡ none)
    → ¬ (unquote value first last ≡ none)
unfolding unquote slice
unquote-total value none last h a b = λ p. a refl
unquote-total value (some c) none h a b = λ p. b refl
unquote-total value (some c) (some d) h a b = λ p. ground (arith, h, p)

without_quotes-total : (value : List ℕ) → ¬ (without_quotes value ≡ none)
unfolding without_quotes
without_quotes-total value = elim (Bool-cases (leb 2 (length value))) [
  | inl q ↦
      let long : 2 ≤ length value = ground (arith, q) in
      rw (q, without_quotes)
        (unquote-total value (get_elem? value 0) (get_elem? value (length value - 1)) long
          (get_elem?-inside value 0 (omega (arith, long)))
          (get_elem?-inside value (length value - 1) (omega (arith, long))))
  | inr q ↦ rw (q, without_quotes) (λ p. ground (arith, p))
]

module _ (trim : List ℕ → List ℕ) (shorter : (s : List ℕ) → length (trim s) ≤ length s) where
  pub cut_end-total : (value : List ℕ) → ¬ (cut value (find_param_value_end trim value) ≡ none)
  unfolding find_param_value_end
  cut_end-total value =
      cut-total value (end_of (trim value))
        (λ n h. omega (arith, end_of-le n (trim value) h, shorter value))

  trimmed_value-total : (r : Option (List ℕ)) → ¬ (r ≡ none) → ¬ (trimmed_value trim r ≡ none)
  unfolding trimmed_value
  trimmed_value-total none h = λ p. h refl
  trimmed_value-total (some v) h = without_quotes-total (trim v)

  pub param_value-total : (value : List ℕ) → ¬ (param_value trim value ≡ none)
  unfolding param_value
  param_value-total value =
      trimmed_value-total (cut value (find_param_value_end trim value)) (cut_end-total value)
