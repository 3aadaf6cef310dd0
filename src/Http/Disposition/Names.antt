-- ===== src/Http/Disposition/Names.antt =====
-- internal/protocol/http/helper.go and pkg/util/url.go: the file name in a Content-Disposition header. A
-- text is the list of its bytes. A slice out of range is a panic.
pub mod Decode
pub mod RoundTrip
pub mod Total
use gopeed_torbox.Base.{
  ℕ, zero, suc, ◌+◌, ◌-◌, ◌*◌, Bool, true, false, not, ◌&&◌, ◌||◌, Option, none, some, List, [],
  ◌∷◌, ◌++◌, leb, ◌==◌, if◌then◌else◌, length, drop,
}
use gopeed_torbox.Util.Match.{has_prefix, cut_at}
use gopeed_torbox.Http.Disposition.{single_quote, cut, find_param_value_end}

-- `strings.Index`; `none` is -1.
unfoldable pub index_of : List ℕ → List ℕ → Option ℕ
unfolding has_prefix
index_of pattern [] = if has_prefix pattern [] then some 0 else none
index_of pattern (c ∷ cs) =
    let rest = index_of pattern cs in
    if has_prefix pattern (c ∷ cs)
    then some 0
    else elim rest [ none ↦ none | some i ↦ some (suc i) ]

-- The part behind the first separator, the second of `strings.SplitN(s, separator, 2)`.
unfoldable pub part_behind : List ℕ → List ℕ → Option (List ℕ)
unfolding cut_at
part_behind separator s = elim (cut_at separator s) [ none ↦ none | some (b, a) ↦ some a ]

-- A byte behind `%`, and behind `%` and a digit.
pub data Escape : Type 0 where
  ready : Escape
  percent : Escape
  high : ℕ → Escape

abbrev pub percent_sign : ℕ
percent_sign = 37

unfoldable pub hex_value : ℕ → Option ℕ
hex_value c =
    if leb 48 c && leb c 57
    then some (c - 48)
    else if leb 65 c && leb c 70
    then some (c - 55)
    else if leb 97 c && leb c 102
    then some (c - 87)
    else none

abbrev pub before : ℕ → Option (List ℕ) → Option (List ℕ)
before c none = none
before c (some cs) = some (c ∷ cs)

unfoldable pub unescape_from : Escape → List ℕ → Option (List ℕ)
unescape_from ready [] = some []
unescape_from percent [] = none
unescape_from (high h) [] = none
unescape_from ready (c ∷ cs) =
    let rest = unescape_from (if c == percent_sign then percent else ready) cs in
    if c == percent_sign then rest else before c rest
unescape_from percent (c ∷ cs) = elim (hex_value c) [
  | none ↦ none
  | some h ↦ unescape_from (high h) cs
]
unescape_from (high h) (c ∷ cs) = elim (hex_value c) [
  | none ↦ none
  | some l ↦ before (16 * h + l) (unescape_from ready cs)
]

-- `url.PathUnescape`; `none` is an error.
abbrev pub path_unescape : List ℕ → Option (List ℕ)
unfolding unescape_from
path_unescape s = unescape_from ready s

unfoldable pub try_url_path_unescape : List ℕ → List ℕ
unfolding path_unescape
try_url_path_unescape s = elim (path_unescape s) [ none ↦ s | some decoded ↦ decoded ]

-- The library's functions on texts: `ToLower`, `TrimSpace`, `ValidString`, the filename of
-- `ParseMediaType`, which is empty where there is none and `none` for an error, the `WordDecoder`, and
-- the decoder of GBK.
pub record Texts : Type 0 where
  pub lower : List ℕ → List ℕ
  pub trim : List ℕ → List ℕ
  pub valid_utf8 : List ℕ → Bool
  pub media_filename : List ℕ → Option (List ℕ)
  pub decode_word : List ℕ → Option (List ℕ)
  pub decode_gbk : List ℕ → Option (List ℕ)

-- `filename*=`
abbrev pub extended_key : List ℕ
extended_key = 102 ∷ 105 ∷ 108 ∷ 101 ∷ 110 ∷ 97 ∷ 109 ∷ 101 ∷ 42 ∷ 61 ∷ []

-- The value behind a key, whose place in the text of lower case is taken for that in the header.
pub data KeyValue : Type 0 where
  missing : KeyValue
  panics : KeyValue
  found : List ℕ → KeyValue

unfoldable pub value_at : List ℕ → List ℕ → Option ℕ → KeyValue
value_at key cd none = missing
value_at key cd (some i) =
    if leb (i + length key) (length cd) then found (drop (i + length key) cd) else panics

abbrev pub unescaped_or : List ℕ → Option (List ℕ) → List ℕ
unfolding path_unescape
unescaped_or other none = other
unescaped_or other (some part) = elim (path_unescape part) [ none ↦ other | some decoded ↦ decoded ]

-- The third of `strings.SplitN(value, "'", 3)`.
abbrev pub part_behind_two : List ℕ → Option (List ℕ)
unfolding part_behind
part_behind_two value = elim (part_behind (single_quote ∷ []) value) [
  | none ↦ none
  | some rest ↦ part_behind (single_quote ∷ []) rest
]

-- The value of `filename*=`, cut and trimmed.
unfoldable pub decode_extended : List ℕ → List ℕ
unfolding unescaped_or part_behind_two
decode_extended value =
    unescaped_or (unescaped_or [] (part_behind_two value))
      (part_behind (single_quote ∷ single_quote ∷ []) value)

module _ (t : Texts) where
  unfoldable pub value_of : List ℕ → List ℕ → KeyValue
  unfolding index_of value_at
  value_of key cd = value_at key cd (index_of key (t.lower cd))

  unfoldable pub decoded_value : Option (List ℕ) → Option (List ℕ)
  unfolding decode_extended
  decoded_value none = none
  decoded_value (some value) = some (decode_extended (t.trim value))

  unfoldable pub extended_value : List ℕ → Option (List ℕ)
  unfolding find_param_value_end decoded_value cut
  extended_value value = decoded_value (cut value (find_param_value_end t.trim value))

  -- `none` is a panic.
  unfoldable pub parse_filename_extended : List ℕ → Option (List ℕ)
  unfolding value_of extended_value
  parse_filename_extended cd = elim (value_of extended_key cd) [
    | missing ↦ some []
    | panics ↦ none
    | found value ↦ extended_value value
  ]
