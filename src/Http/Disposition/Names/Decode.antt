-- ===== src/Http/Disposition/Names/Decode.antt =====
-- internal/protocol/http/helper.go: what the value of `filename=` is decoded to, and the three ways in which
-- a file name is looked for.
use gopeed_torbox.Base.{
  ℕ, zero, suc, Option, none, some, List, [], ◌∷◌, ◌++◌, if◌then◌else◌, length, drop, take,
}
use gopeed_torbox.Http.Disposition.{filename_key, param_value}
use gopeed_torbox.Util.Match.{has_prefix}
use gopeed_torbox.Http.Disposition.Names.{
  Texts, index_of, try_url_path_unescape, value_of, missing, panics, found, parse_filename_extended,
}

-- `strings.ReplaceAll` for a text that is not empty; the bytes of one that was replaced are passed over.
unfoldable pub replace_from : List ℕ → List ℕ → ℕ → List ℕ → List ℕ
unfolding has_prefix
replace_from old new n [] = []
replace_from old new (suc n) (c ∷ cs) = replace_from old new n cs
replace_from old new zero (c ∷ cs) =
    let hit = has_prefix old (c ∷ cs) in
    let rest = replace_from old new (if hit then length (drop 1 old) else 0) cs in
    if hit then new ++ rest else c ∷ rest

-- `&amp;`, `&lt;`, `&gt;`, `&quot;`, `&#39;`, `&apos;` and what they stand for
abbrev pub html_replacements : List (List ℕ × List ℕ)
html_replacements =
    (38 ∷ 97 ∷ 109 ∷ 112 ∷ 59 ∷ [], 38 ∷ [])
    ∷ (38 ∷ 108 ∷ 116 ∷ 59 ∷ [], 60 ∷ [])
    ∷ (38 ∷ 103 ∷ 116 ∷ 59 ∷ [], 62 ∷ [])
    ∷ (38 ∷ 113 ∷ 117 ∷ 111 ∷ 116 ∷ 59 ∷ [], 34 ∷ [])
    ∷ (38 ∷ 35 ∷ 51 ∷ 57 ∷ 59 ∷ [], 39 ∷ [])
    ∷ (38 ∷ 97 ∷ 112 ∷ 111 ∷ 115 ∷ 59 ∷ [], 39 ∷ [])
    ∷ []

-- The loop over the replacements, in the order in which the map gives them.
unfoldable pub unescape_html_entities : List (List ℕ × List ℕ) → List ℕ → List ℕ
unfolding replace_from
unescape_html_entities [] s = s
unescape_html_entities ((entity, char) ∷ order) s =
    unescape_html_entities order (replace_from entity char 0 s)

-- `UTF8` and `UTF-8`; only the first is replaced.
abbrev pub normalized : List ℕ → List ℕ
unfolding index_of
normalized s = elim (index_of (85 ∷ 84 ∷ 70 ∷ 56 ∷ []) s) [
  | none ↦ s
  | some i ↦ take i s ++ (85 ∷ 84 ∷ 70 ∷ 45 ∷ 56 ∷ []) ++ drop (suc (suc (suc (suc i)))) s
]

abbrev pub non_empty_or : List ℕ → List ℕ → List ℕ
non_empty_or other [] = other
non_empty_or other (c ∷ cs) = c ∷ cs

module _ (t : Texts) where
  unfoldable pub try_decode_gbk : List ℕ → List ℕ
  try_decode_gbk [] = []
  try_decode_gbk (c ∷ cs) = elim (t.decode_gbk (c ∷ cs)) [
    | none ↦ []
    | some result ↦ if t.valid_utf8 result then result else []
  ]

  abbrev pub decode_bytes : List ℕ → List ℕ
  unfolding try_decode_gbk
  decode_bytes decoded =
      if t.valid_utf8 decoded then decoded else non_empty_or decoded (try_decode_gbk decoded)

  -- `=?` begins an encoded word.
  unfoldable pub decode_plain : List ℕ → List ℕ
  unfolding normalized decode_bytes try_url_path_unescape has_prefix
  decode_plain s =
      elim (if has_prefix (61 ∷ 63 ∷ []) s then t.decode_word (normalized s) else none) [
        | some decoded ↦ decoded
        | none ↦ decode_bytes (try_url_path_unescape s)
      ]

  module _ (order : List (List ℕ × List ℕ)) where
    unfoldable pub decode_filename_param : List ℕ → List ℕ
    unfolding unescape_html_entities decode_plain
    decode_filename_param s = decode_plain (unescape_html_entities order s)

    unfoldable pub decoded_param : Option (List ℕ) → Option (List ℕ)
    unfolding decode_filename_param
    decoded_param none = none
    decoded_param (some value) = some (decode_filename_param value)

    -- `none` is a panic.
    unfoldable pub parse_filename_fallback : List ℕ → Option (List ℕ)
    unfolding value_of param_value decoded_param
    parse_filename_fallback cd = elim (value_of t filename_key cd) [
      | missing ↦ some []
      | panics ↦ none
      | found value ↦ decoded_param (param_value t.trim value)
    ]

    unfoldable pub parse_standard : List ℕ → Option (List ℕ) → Option (List ℕ)
    unfolding decode_filename_param parse_filename_fallback
    parse_standard cd none = parse_filename_fallback cd
    parse_standard cd (some []) = parse_filename_fallback cd
    parse_standard cd (some (c ∷ cs)) = some (decode_filename_param (c ∷ cs))

    unfoldable pub parse_otherwise : List ℕ → Option (List ℕ) → Option (List ℕ)
    unfolding parse_standard
    parse_otherwise cd none = none
    parse_otherwise cd (some []) = parse_standard cd (t.media_filename cd)
    parse_otherwise cd (some (c ∷ cs)) = some (c ∷ cs)

    unfoldable pub parse_filename : List ℕ → Option (List ℕ)
    unfolding parse_otherwise parse_filename_extended
    parse_filename cd = parse_otherwise cd (parse_filename_extended t cd)
