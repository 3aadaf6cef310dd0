-- ===== src/Util/Match.antt =====
-- pkg/util/matcher.go: the match of a URL with a pattern. A text is the list of its bytes. The parsed URL and
-- the matching of regular expressions, here of a path with a whole expression, are parameters.
pub mod Parsed
use gopeed_torbox.Base.{
  ℕ, Bool, true, false, not, ◌&&◌, ◌||◌, Option, none, some, List, [], ◌∷◌, ◌++◌, ◌==◌,
  if◌then◌else◌, length, drop, bytes_eq,
}

-- `strings.HasPrefix`, with the prefix first.
unfoldable pub has_prefix : List ℕ → List ℕ → Bool
has_prefix [] s = true
has_prefix (p ∷ ps) [] = false
has_prefix (p ∷ ps) (b ∷ bs) = p == b && has_prefix ps bs

-- `strings.HasSuffix`, with the suffix first.
unfoldable pub has_suffix : List ℕ → List ℕ → Bool
unfolding bytes_eq
has_suffix t [] = bytes_eq t []
has_suffix t (b ∷ bs) = bytes_eq t (b ∷ bs) || has_suffix t bs

-- What stands before and after the first separator.
unfoldable pub cut_at : List ℕ → List ℕ → Option (List ℕ × List ℕ)
unfolding has_prefix
cut_at sep [] = none
cut_at sep (b ∷ bs) =
    let rest = cut_at sep bs in
    if has_prefix sep (b ∷ bs)
    then some ([], drop (length sep) (b ∷ bs))
    else elim rest [ none ↦ none | some (before, after) ↦ some (b ∷ before, after) ]

abbrev pub slash : ℕ
slash = 47

abbrev pub star : ℕ
star = 42

-- `://`
abbrev pub scheme_end : List ℕ
scheme_end = 58 ∷ slash ∷ slash ∷ []

-- The scheme and what follows it, where the separator stands exactly once in the pattern.
unfoldable pub split_scheme : List ℕ → List ℕ × List ℕ
unfolding cut_at
split_scheme pattern = elim (cut_at scheme_end pattern) [
  | none ↦ ([], pattern)
  | some (scheme, rest) ↦ elim (cut_at scheme_end rest) [
    | none ↦ (scheme, rest)
    | some again ↦ ([], pattern)
  ]
]

unfoldable pub split_path : List ℕ → List ℕ × List ℕ
unfolding cut_at
split_path pattern = elim (cut_at (slash ∷ []) pattern) [
  | none ↦ (pattern, slash ∷ [])
  | some (host, rest) ↦ (host, slash ∷ rest)
]

unfoldable pub parse_pattern : List ℕ → List ℕ × List ℕ × List ℕ
unfolding split_scheme split_path
parse_pattern pattern =
    let (scheme, rest) = split_scheme pattern in
    let (host, path) = split_path rest in (scheme, host, path)

unfoldable pub match_host : List ℕ → List ℕ → Bool
unfolding bytes_eq has_prefix has_suffix
match_host pattern host =
    if bytes_eq pattern (star ∷ [])
    then true
    else if has_prefix (star ∷ 46 ∷ []) pattern
    then has_suffix (drop 1 pattern) host
    else bytes_eq pattern host

-- `strings.Contains` for one byte.
unfoldable pub has_byte : ℕ → List ℕ → Bool
has_byte c [] = false
has_byte c (b ∷ bs) = b == c || has_byte c bs

-- `strings.Replace(pattern, "*", ".*", -1)`
unfoldable pub stars_to_regexp : List ℕ → List ℕ
stars_to_regexp [] = []
stars_to_regexp (b ∷ bs) =
    let rest = stars_to_regexp bs in if b == star then 46 ∷ star ∷ rest else b ∷ rest

unfoldable pub slashed_path : List ℕ → List ℕ
unfolding has_suffix
slashed_path path = if has_suffix (slash ∷ []) path then path else path ++ slash ∷ []

unfoldable pub slashed_pattern : List ℕ → List ℕ
unfolding has_suffix
slashed_pattern pattern =
    if not (has_suffix (star ∷ []) pattern) && not (has_suffix (slash ∷ []) pattern)
    then pattern ++ slash ∷ []
    else pattern

-- The scheme, the host's name and the path of a URL.
pub record Url : Type 0 where
  pub scheme : List ℕ
  pub hostname : List ℕ
  pub path : List ℕ

module _ (match_string : List ℕ → List ℕ → Bool) where
  unfoldable pub match_path : List ℕ → List ℕ → Bool
  unfolding bytes_eq has_byte stars_to_regexp slashed_path slashed_pattern
  match_path pattern path =
      if bytes_eq pattern (star ∷ [])
      then true
      else if has_byte star (slashed_pattern pattern)
      then match_string (94 ∷ (stars_to_regexp (slashed_pattern pattern) ++ 36 ∷ []))
          (slashed_path path)
      else bytes_eq (slashed_pattern pattern) (slashed_path path)

  unfoldable pub match_parsed : List ℕ × List ℕ × List ℕ → Url → Bool
  unfolding bytes_eq match_host match_path
  match_parsed (scheme, host, path) u =
      (bytes_eq scheme (star ∷ []) || bytes_eq scheme u.scheme)
      && (match_host host u.hostname && match_path path u.path)

  -- `parse` is `url.Parse`, `none` its error.
  unfoldable pub match_url : (List ℕ → Option Url) → List ℕ → List ℕ → Bool
  unfolding parse_pattern match_parsed
  match_url parse pattern u = elim (parse u) [
    | none ↦ false
    | some parsed ↦ match_parsed (parse_pattern pattern) parsed
  ]
