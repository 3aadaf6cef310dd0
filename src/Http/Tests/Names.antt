-- ===== src/Http/Tests/Names.antt =====
-- Examples for the file names in headers.
use gopeed_torbox.Base.{
  ℕ, ◌+◌, ◌≡◌, refl, ◌&&◌, true, none, some, List, [], ◌∷◌, ◌++◌, map, arith, leb, if◌then◌else◌,
}
use gopeed_torbox.Http.Disposition.{filename_key}
use gopeed_torbox.Util.Match.{has_prefix}
use gopeed_torbox.Http.Disposition.Names.{Texts, extended_key, index_of}
use gopeed_torbox.Http.Disposition.Names.Decode.{
  html_replacements, unescape_html_entities, replace_from, parse_filename,
}
use gopeed_torbox.Http.Disposition.Names.Total.{parse_filename-total}
use gopeed_torbox.Http.Disposition.Names.RoundTrip.{
  parse_filename-extended, Bytes, percent_encode, extended,
}

abbrev to_lower : ℕ → ℕ
to_lower c = if leb 65 c && leb c 90 then c + 32 else c

-- Texts of ASCII without spaces at their ends; nothing else is decoded.
abbrev texts : Texts
texts = record {
  lower = map to_lower;
  trim = λ s. s;
  valid_utf8 = λ s. true;
  media_filename = λ s. none;
  decode_word = λ s. none;
  decode_gbk = λ s. none;
}

-- `Attachment; `
abbrev attachment : List ℕ
attachment = 65 ∷ 116 ∷ 116 ∷ 97 ∷ 99 ∷ 104 ∷ 109 ∷ 101 ∷ 110 ∷ 116 ∷ 59 ∷ 32 ∷ []

-- A name of three bytes, which is one character.
parse_filename-extended_example :
    parse_filename texts html_replacements
      (attachment ++ (extended_key ++ extended (228 ∷ 184 ∷ 173 ∷ [])))
    ≡ some (228 ∷ 184 ∷ 173 ∷ [])
unfolding index_of has_prefix percent_encode Bytes
parse_filename-extended_example =
    parse_filename-extended texts html_replacements attachment 228 (184 ∷ 173 ∷ [])
      (omega arith, (omega arith, (omega arith, tt))) refl refl

-- The header ends with the key.
parse_filename-total_example :
    ¬ (parse_filename texts html_replacements (attachment ++ filename_key) ≡ none)
parse_filename-total_example =
    parse_filename-total texts (λ s. omega arith) html_replacements (attachment ++ filename_key)
      refl

-- `&amp;lt;` becomes `<` or `&lt;`, as `&amp;` is replaced before or after `&lt;`.
amp_before_lt :
    unescape_html_entities
      ((38 ∷ 97 ∷ 109 ∷ 112 ∷ 59 ∷ [], 38 ∷ []) ∷ (38 ∷ 108 ∷ 116 ∷ 59 ∷ [], 60 ∷ []) ∷ [])
      (38 ∷ 97 ∷ 109 ∷ 112 ∷ 59 ∷ 108 ∷ 116 ∷ 59 ∷ [])
    ≡ 60 ∷ []
unfolding unescape_html_entities replace_from has_prefix
amp_before_lt = refl

lt_before_amp :
    unescape_html_entities
      ((38 ∷ 108 ∷ 116 ∷ 59 ∷ [], 60 ∷ []) ∷ (38 ∷ 97 ∷ 109 ∷ 112 ∷ 59 ∷ [], 38 ∷ []) ∷ [])
      (38 ∷ 97 ∷ 109 ∷ 112 ∷ 59 ∷ 108 ∷ 116 ∷ 59 ∷ [])
    ≡ 38 ∷ 108 ∷ 116 ∷ 59 ∷ []
unfolding unescape_html_entities replace_from has_prefix
lt_before_amp = refl
