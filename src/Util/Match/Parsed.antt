-- ===== src/Util/Match/Parsed.antt =====
-- pkg/util/matcher.go: the parts of a pattern.
use gopeed_torbox.Base.{
  drop-length, ℕ, ◌≡◌, refl, ◌∙◌, ap, Bool, true, false, ◌&&◌, Option, none, some, List, [], ◌∷◌,
  ◌++◌, ◌==◌, arith, Bool-cases, inl, inr, bytes_eq,
}
use gopeed_torbox.Util.Match.{
  has_prefix, cut_at, slash, scheme_end, split_scheme, split_path, parse_pattern, has_byte, star,
  has_suffix, match_host, slashed_pattern, slashed_path, match_path, Url, match_url, match_parsed,
}

-- A text without a byte has no place to cut at a separator that begins with it.
pub cut_at-without : (c : ℕ) (sep s : List ℕ) → has_byte c s ≡ false → cut_at (c ∷ sep) s ≡ none
unfolding cut_at has_prefix has_byte
cut_at-without c sep [] h = refl
cut_at-without c sep (b ∷ bs) h =
    let later = cut_at-without c sep bs (ground (arith, h)) in
    let other : (c == b) ≡ false = ground (arith, h) in rw (other, later) refl

has_prefix-append : (s t : List ℕ) → has_prefix s (s ++ t) ≡ true
unfolding has_prefix
has_prefix-append [] t = refl
has_prefix-append (b ∷ bs) t = ground (arith, has_prefix-append bs t)

-- The cut is at the first separator, if its first byte does not stand before it.
pub cut_at-first :
    (c : ℕ) (sep before after : List ℕ)
    → has_byte c before ≡ false
    → cut_at (c ∷ sep) (before ++ (c ∷ (sep ++ after))) ≡ some (before, after)
unfolding cut_at has_byte
cut_at-first c sep [] after h = rw (has_prefix-append (c ∷ sep) after, drop-length sep after) refl
cut_at-first c sep (b ∷ bs) after h =
    let later = cut_at-first c sep bs after (ground (arith, h)) in
    let other : (c == b) ≡ false = ground (arith, h) in rw (other, later) refl

pub has_byte-append :
    (c : ℕ) (s t : List ℕ)
    → has_byte c s ≡ false
    → has_byte c t ≡ false
    → has_byte c (s ++ t) ≡ false
unfolding has_byte
has_byte-append c [] t h k = k
has_byte-append c (b ∷ bs) t h k =
    let later = has_byte-append c bs t (ground (arith, h)) k in ground (arith, h, later)

append-has_byte :
    (c : ℕ) (s t : List ℕ)
    → has_byte c (s ++ t) ≡ false
    → (has_byte c s ≡ false) × (has_byte c t ≡ false)
unfolding has_byte
append-has_byte c [] t h = (refl, h)
append-has_byte c (b ∷ bs) t h =
    let (later, rest) = append-has_byte c bs t (ground (arith, h)) in
    (ground (arith, h, later), rest)

abbrev pub print_pattern : List ℕ → List ℕ → List ℕ → List ℕ
print_pattern scheme host path = scheme ++ (scheme_end ++ (host ++ slash ∷ path))

split_scheme-print :
    (scheme host path : List ℕ)
    → has_byte 58 scheme ≡ false
    → has_byte 58 host ≡ false
    → has_byte 58 path ≡ false
    → split_scheme (print_pattern scheme host path) ≡ (scheme, host ++ slash ∷ path)
unfolding split_scheme has_byte
split_scheme-print scheme host path hs hh hp =
    let first : cut_at scheme_end (print_pattern scheme host path)
        ≡ some (scheme, host ++ slash ∷ path) =
      cut_at-first 58 (slash ∷ slash ∷ []) scheme (host ++ slash ∷ path) hs in
    let free : has_byte 58 (slash ∷ path) ≡ false = hp in
    let once : cut_at scheme_end (host ++ slash ∷ path) ≡ none =
      cut_at-without 58 (slash ∷ slash ∷ []) (host ++ slash ∷ path)
        (has_byte-append 58 host (slash ∷ path) hh free) in
    rw (split_scheme, first, once) refl

split_path-print :
    (host path : List ℕ)
    → has_byte slash host ≡ false
    → split_path (host ++ slash ∷ path) ≡ (host, slash ∷ path)
unfolding split_path
split_path-print host path h =
    let first : cut_at (slash ∷ []) (host ++ slash ∷ path) ≡ some (host, path) =
      cut_at-first slash [] host path h in
    rw (split_path, first) refl

-- A pattern put together from a scheme and a path without a colon and a host without a colon and a
-- slash has these parts.
parse_pattern-print :
    (scheme host path : List ℕ)
    → has_byte 58 scheme ≡ false
    → has_byte 58 host ≡ false
    → has_byte slash host ≡ false
    → has_byte 58 path ≡ false
    → parse_pattern (print_pattern scheme host path) ≡ (scheme, host, slash ∷ path)
unfolding parse_pattern
parse_pattern-print scheme host path hs hh hslash hp =
    rw (split_scheme-print scheme host path hs hh hp, split_path-print host path hslash) refl

bytes_eq-star : (s : List ℕ) → has_byte star s ≡ false → bytes_eq s (star ∷ []) ≡ false
unfolding bytes_eq has_byte
bytes_eq-star [] h = refl
bytes_eq-star (b ∷ bs) h = ground (arith, h)

has_prefix-star : (s : List ℕ) → has_byte star s ≡ false → has_prefix (star ∷ 46 ∷ []) s ≡ false
unfolding has_prefix has_byte
has_prefix-star [] h = refl
has_prefix-star (b ∷ bs) h = ground (arith, h)

has_suffix-star : (s : List ℕ) → has_byte star s ≡ false → has_suffix (star ∷ []) s ≡ false
unfolding has_suffix bytes_eq has_byte
has_suffix-star [] h = refl
has_suffix-star (b ∷ bs) h =
    let later = has_suffix-star bs (ground (arith, h)) in ground (arith, h, later)

match_host-literal :
    (pattern host : List ℕ)
    → has_byte star pattern ≡ false
    → match_host pattern host ≡ bytes_eq pattern host
unfolding match_host
match_host-literal pattern host h =
    rw (match_host, bytes_eq-star pattern h, has_prefix-star pattern h) refl

slashed_pattern-literal :
    (pattern : List ℕ)
    → has_byte star pattern ≡ false
    → slashed_pattern pattern ≡ slashed_path pattern
unfolding slashed_pattern slashed_path
slashed_pattern-literal pattern h =
    let no_star = has_suffix-star pattern h in
    elim (Bool-cases (has_suffix (slash ∷ []) pattern)) [
      | inl q ↦ rw (slashed_pattern, slashed_path, no_star, q) refl
      | inr q ↦ rw (slashed_pattern, slashed_path, no_star, q) refl
    ]

slashed_path-star : (s : List ℕ) → has_byte star s ≡ false → has_byte star (slashed_path s) ≡ false
unfolding slashed_path has_byte
slashed_path-star s h = elim (Bool-cases (has_suffix (slash ∷ []) s)) [
  | inl q ↦ rw (slashed_path, q) h
  | inr q ↦ rw (slashed_path, q) (has_byte-append star s (slash ∷ []) h last)
]
  where
    last : has_byte star (slash ∷ []) ≡ false
    last = refl

match_path-literal :
    (match_string : List ℕ → List ℕ → Bool) (pattern path : List ℕ)
    → has_byte star pattern ≡ false
    → match_path match_string pattern path ≡ bytes_eq (slashed_path pattern) (slashed_path path)
unfolding match_path
match_path-literal match_string pattern path h =
    rw
      (
        match_path,
        bytes_eq-star pattern h,
        slashed_pattern-literal pattern h,
        slashed_path-star pattern h,
      )
      refl

-- The same scheme, host and path, up to a slash at the path's end.
unfoldable pub same_place : List ℕ → List ℕ → List ℕ → Url → Bool
unfolding bytes_eq slashed_path
same_place scheme host path u =
    bytes_eq scheme u.scheme
    && (bytes_eq host u.hostname && bytes_eq (slashed_path path) (slashed_path u.path))

match_parsed-literal :
    (match_string : List ℕ → List ℕ → Bool) (scheme host path : List ℕ) (u : Url)
    → has_byte star scheme ≡ false
    → has_byte star host ≡ false
    → has_byte star path ≡ false
    → match_parsed match_string (scheme, host, path) u ≡ same_place scheme host path u
unfolding match_parsed same_place
match_parsed-literal match_string scheme host path u ss sh sp =
    rw
      (
        match_parsed,
        same_place,
        bytes_eq-star scheme ss,
        match_host-literal host u.hostname sh,
        match_path-literal match_string path u.path sp,
      )
      refl

-- A pattern without stars, put together from a scheme and a path without a colon and a host
-- without a colon and a slash, matches exactly the texts that are read as a URL with this scheme,
-- this host and, up to a slash at its end, this path.
pub match_url-literal :
    (match_string : List ℕ → List ℕ → Bool) (parse : List ℕ → Option Url)
    (scheme host path u : List ℕ)
    → has_byte 58 (scheme ++ (host ++ path)) ≡ false
    → has_byte slash host ≡ false
    → has_byte star (scheme ++ (host ++ path)) ≡ false
    → match_url match_string parse (print_pattern scheme host path) u
      ≡ elim (parse u) [ none ↦ false | some parsed ↦ same_place scheme host (slash ∷ path) parsed ]
unfolding match_url has_byte
match_url-literal match_string parse scheme host path u colons slashes stars =
    let (s1, r1) = append-has_byte 58 scheme (host ++ path) colons in
    let (h1, p1) = append-has_byte 58 host path r1 in
    let (s2, r2) = append-has_byte star scheme (host ++ path) stars in
    let (h2, p2) = append-has_byte star host path r2 in
    parsed (parse_pattern-print scheme host path s1 h1 slashes p1)
      (λ v. match_parsed-literal match_string scheme host (slash ∷ path) v s2 h2 p2) (parse u)
  where
    parsed :
        parse_pattern (print_pattern scheme host path) ≡ (scheme, host, slash ∷ path)
        → ((v : Url)
            → match_parsed match_string (scheme, host, slash ∷ path) v
              ≡ same_place scheme host (slash ∷ path) v)
        → (o : Option Url)
        → elim o [
          | none ↦ false
          | some v ↦ match_parsed match_string (parse_pattern (print_pattern scheme host path)) v
        ]
          ≡ elim o [ none ↦ false | some v ↦ same_place scheme host (slash ∷ path) v ]
    parsed parts each none = refl
    parsed parts each (some v) = ap (λ p. match_parsed match_string p v) parts ∙ each v
