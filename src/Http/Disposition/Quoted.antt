-- ===== src/Http/Disposition/Quoted.antt =====
-- internal/protocol/http/helper.go: a quoted file name, written into a header and read again.
use gopeed_torbox.Base.{
  ℕ, suc, ◌+◌, ◌-◌, ◌≤◌, ◌≡◌, refl, ◌∙◌, ap, Bool, true, false, not, ◌&&◌, some, List, [], ◌∷◌,
  ◌++◌, ◌==◌, leb, length, take, drop, length-append, get_elem?-append_last, arith,
}
use gopeed_torbox.Http.Disposition.{
  double_quote, backslash, semicolon, end_of, quoted_end, first_semicolon, cut, slice, unquote,
  trimmed_value, without_quotes, find_param_value_end, param_value,
}

-- No quote and no backslash.
unfoldable pub plain : List ℕ → Bool
plain [] = true
plain (c ∷ cs) = (not (c == double_quote) && not (c == backslash)) && plain cs

-- `"name"`, and with what follows it.
abbrev pub quoted : List ℕ → List ℕ
quoted name = double_quote ∷ (name ++ double_quote ∷ [])

abbrev pub parameter : List ℕ → List ℕ → List ℕ
parameter name rest = double_quote ∷ (name ++ double_quote ∷ semicolon ∷ rest)

quoted_end-plain :
    (previous i : ℕ) (name rest : List ℕ)
    → plain name ≡ true
    → (previous == backslash) ≡ false
    → quoted_end double_quote previous i (name ++ double_quote ∷ semicolon ∷ rest)
      ≡ some (suc (i + length name))
unfolding quoted_end plain first_semicolon
quoted_end-plain previous i [] rest h p = ground (arith, p)
quoted_end-plain previous i (c ∷ cs) rest h p =
    let later = quoted_end-plain c (suc i) cs rest (ground (arith, h)) (ground (arith, h)) in
    ground (arith, h, later)

take-quoted :
    (name rest : List ℕ)
    → take (suc (length name)) (name ++ double_quote ∷ semicolon ∷ rest) ≡ name ++ double_quote ∷ []
take-quoted [] rest = refl
take-quoted (c ∷ cs) rest = ap (λ x. c ∷ x) (take-quoted cs rest)

take-length : (xs ys : List ℕ) → take (length xs) (xs ++ ys) ≡ xs
take-length [] ys = refl
take-length (x ∷ xs) ys = ap (λ r. x ∷ r) (take-length xs ys)

slice-some :
    (a b : ℕ) (value : List ℕ)
    → a ≤ b
    → b ≤ length value
    → slice a b value ≡ some (take (b - a) (drop a value))
unfolding slice
slice-some a b value h k = ground (arith, h, k)

length-quoted : (name : List ℕ) → length (quoted name) ≡ suc (suc (length name))
length-quoted name = omega (arith, length-append name (double_quote ∷ []))

without_quotes-quoted : (name : List ℕ) → without_quotes (quoted name) ≡ some name
unfolding without_quotes unquote
without_quotes-quoted name =
    let long : leb 2 (length (quoted name)) ≡ true = ground (arith, length-quoted name) in
    let place : length (quoted name) - 1 ≡ suc (length name) = omega (arith, length-quoted name) in
    let width : suc (length name) - 1 ≡ length name = omega arith in
    let inner =
      slice-some 1 (suc (length name)) (quoted name) (omega arith)
        (omega (arith, length-quoted name)) in
    rw (without_quotes, long, place, get_elem?-append_last name double_quote)
      (ap (λ n. slice 1 n (quoted name)) place
        ∙ inner
        ∙ ap some (
            ap (λ n. take n (name ++ double_quote ∷ [])) width
            ∙ take-length name (double_quote ∷ [])))

length-parameter :
    (name rest : List ℕ)
    → length (parameter name rest) ≡ suc (length name + suc (suc (length rest)))
length-parameter name rest = omega (arith, length-append name (double_quote ∷ semicolon ∷ rest))

-- A file name without quotes and backslashes, written between double quotes and followed by a
-- semicolon and anything, is read as that name, if TrimSpace leaves the quoted name and the whole
-- as they are.
pub param_value-quoted :
    (trim : List ℕ → List ℕ) (name rest : List ℕ)
    → plain name ≡ true
    → trim (parameter name rest) ≡ parameter name rest
    → trim (quoted name) ≡ quoted name
    → param_value trim (parameter name rest) ≡ some name
unfolding param_value find_param_value_end trimmed_value cut
param_value-quoted trim name rest h p q =
    let same : suc (1 + length name) ≡ suc (suc (length name)) = omega arith in
    let end : find_param_value_end trim (parameter name rest) ≡ some (suc (suc (length name))) =
      ap end_of p ∙ quoted_end-plain double_quote 1 name rest h refl ∙ ap some same in
    let zero_off : suc (suc (length name)) - 0 ≡ suc (suc (length name)) = omega arith in
    let cutting : cut (parameter name rest) (some (suc (suc (length name)))) ≡ some (quoted name) =
      slice-some 0 (suc (suc (length name))) (parameter name rest) (omega arith)
        (omega (arith, length-parameter name rest))
      ∙ ap (λ n. some (take n (parameter name rest))) zero_off
      ∙ ap (λ x. some (double_quote ∷ x)) (take-quoted name rest) in
    ap (λ r. trimmed_value trim (cut (parameter name rest) r)) end
    ∙ ap (trimmed_value trim) cutting
    ∙ ap without_quotes q
    ∙ without_quotes-quoted name
