-- ===== src/Http/Disposition/Names/Total.antt =====
-- internal/protocol/http/helper.go: which headers are read without a panic.
use gopeed_torbox.Base.{
  ℕ, suc, ◌+◌, ◌≤◌, ◌≡◌, refl, sym, Bool, if◌then◌else◌, true, false, Option, none, some, List, [],
  ◌∷◌, length, arith,
}
use gopeed_torbox.Http.Disposition.{filename_key, param_value, cut, find_param_value_end}
use gopeed_torbox.Http.Disposition.Slices.{cut_end-total, param_value-total}
use gopeed_torbox.Util.Match.{has_prefix}
use gopeed_torbox.Http.Disposition.Names.{
  Texts, index_of, value_at, extended_key, parse_filename_extended, found, panics, missing,
  KeyValue, value_of, extended_value, decoded_value,
}
use gopeed_torbox.Http.Disposition.Names.Decode.{
  parse_filename_fallback, parse_filename, parse_standard, parse_otherwise, decoded_param,
}

has_prefix-length : (p s : List ℕ) → has_prefix p s ≡ true → length p ≤ length s
unfolding has_prefix
has_prefix-length [] s h = omega arith
has_prefix-length (p ∷ ps) [] h = ground arith
has_prefix-length (p ∷ ps) (c ∷ cs) h = ground (arith, has_prefix-length ps cs, h)

-- A step of the search, in a text with `n` more bytes.
found_at :
    (l n : ℕ) (hit : Bool) (r : Option ℕ) (i : ℕ)
    → (hit ≡ true → l ≤ suc n)
    → ((j : ℕ) → r ≡ some j → j + l ≤ n)
    → (if hit then some 0 else elim r [ none ↦ none | some j ↦ some (suc j) ]) ≡ some i
    → i + l ≤ suc n
found_at l n true r i here later h = let le = here refl in ground (arith, h, le)
found_at l n false none i here later h = ground arith
found_at l n false (some j) i here later h = let le = later j refl in ground (arith, h, le)

index_of-length : (p s : List ℕ) (i : ℕ) → index_of p s ≡ some i → i + length p ≤ length s
unfolding index_of
index_of-length p [] i h = ground (arith, has_prefix-length p [], h)
index_of-length p (c ∷ cs) i h =
    found_at (length p) (length cs) (has_prefix p (c ∷ cs)) (index_of p cs) i
      (has_prefix-length p (c ∷ cs)) (index_of-length p cs) h

value_at-inside :
    (key cd : List ℕ) (r : Option ℕ)
    → ((i : ℕ) → r ≡ some i → i + length key ≤ length cd)
    → ¬ (value_at key cd r ≡ panics)
unfolding value_at
value_at-inside key cd none h = λ p. ground (arith, p)
value_at-inside key cd (some i) h = let le = h i refl in λ p. ground (arith, le, p)

-- What is made of a value that was found.
made-total :
    (f : List ℕ → Option (List ℕ)) (v : KeyValue)
    → ((value : List ℕ) → ¬ (f value ≡ none))
    → ¬ (v ≡ panics)
    → ¬ (elim v [ missing ↦ some [] | panics ↦ none | found value ↦ f value ] ≡ none)
made-total f missing g h = λ p. ground (arith, p)
made-total f panics g h = λ p. h refl
made-total f (found value) g h = g value

module _ (t : Texts) (shorter : (s : List ℕ) → length (t.trim s) ≤ length s) where
  decoded_value-total : (r : Option (List ℕ)) → ¬ (r ≡ none) → ¬ (decoded_value t r ≡ none)
  unfolding decoded_value
  decoded_value-total none h = λ p. h refl
  decoded_value-total (some v) h = λ p. ground (arith, p)

  extended_value-total : (value : List ℕ) → ¬ (extended_value t value ≡ none)
  unfolding extended_value
  extended_value-total value =
      decoded_value-total (cut value (find_param_value_end t.trim value))
        (cut_end-total t.trim shorter value)

  value_of-inside :
      (key cd : List ℕ) → length (t.lower cd) ≡ length cd → ¬ (value_of t key cd ≡ panics)
  unfolding value_of
  value_of-inside key cd h =
      value_at-inside key cd (index_of key (t.lower cd))
        (λ i found. rw (sym h) (index_of-length key (t.lower cd) i found))

  extended-total :
      (cd : List ℕ) → length (t.lower cd) ≡ length cd → ¬ (parse_filename_extended t cd ≡ none)
  unfolding parse_filename_extended
  extended-total cd h =
      made-total (extended_value t) (value_of t extended_key cd) extended_value-total
        (value_of-inside extended_key cd h)

  module _ (order : List (List ℕ × List ℕ)) where
    decoded_param-total : (r : Option (List ℕ)) → ¬ (r ≡ none) → ¬ (decoded_param t order r ≡ none)
    unfolding decoded_param
    decoded_param-total none h = λ p. h refl
    decoded_param-total (some v) h = λ p. ground (arith, p)

    fallback-total :
        (cd : List ℕ)
        → length (t.lower cd) ≡ length cd
        → ¬ (parse_filename_fallback t order cd ≡ none)
    unfolding parse_filename_fallback
    fallback-total cd h =
        made-total (λ value. decoded_param t order (param_value t.trim value))
          (value_of t filename_key cd)
          (λ value.
            decoded_param-total (param_value t.trim value) (param_value-total t.trim shorter value))
          (value_of-inside filename_key cd h)

    standard-total :
        (cd : List ℕ) (m : Option (List ℕ))
        → length (t.lower cd) ≡ length cd
        → ¬ (parse_standard t order cd m ≡ none)
    unfolding parse_standard
    standard-total cd none h = fallback-total cd h
    standard-total cd (some []) h = fallback-total cd h
    standard-total cd (some (c ∷ cs)) h = λ p. ground (arith, p)

    otherwise-total :
        (cd : List ℕ) (r : Option (List ℕ))
        → ¬ (r ≡ none)
        → length (t.lower cd) ≡ length cd
        → ¬ (parse_otherwise t order cd r ≡ none)
    unfolding parse_otherwise
    otherwise-total cd none n h = λ p. n refl
    otherwise-total cd (some []) n h = standard-total cd (t.media_filename cd) h
    otherwise-total cd (some (c ∷ cs)) n h = λ p. ground (arith, p)

    -- Whatever the library makes of a header, and in whatever order the entities are replaced, the
    -- file name of a header that has the same length in lower case is read without a panic, if
    -- TrimSpace makes no text longer: no slice and no index is out of range.
    pub parse_filename-total :
        (cd : List ℕ) → length (t.lower cd) ≡ length cd → ¬ (parse_filename t order cd ≡ none)
    unfolding parse_filename
    parse_filename-total cd h =
        otherwise-total cd (parse_filename_extended t cd) (extended-total cd h) h
