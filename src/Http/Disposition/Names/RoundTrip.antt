-- ===== src/Http/Disposition/Names/RoundTrip.antt =====
-- internal/protocol/http/helper.go: a file name, written into a header as `filename*=UTF-8''` and the bytes in
-- hexadecimal digits, and read again.
use gopeed_torbox.Base.{
  ℕ, suc, ◌+◌, ◌*◌, ◌/◌, ◌%◌, ◌<◌, ◌≡◌, refl, ◌∙◌, ap, false, none, some, List, [], ◌∷◌, ◌++◌, ◌==◌,
  drop, if◌then◌else◌, ltb, length, length-append, drop-length, drop-append, arith,
}
use gopeed_torbox.Http.Disposition.{unquoted_end, find_param_value_end, semicolon, cut, end_of}
use gopeed_torbox.Http.Disposition.Names.Decode.{parse_filename, parse_otherwise}
use gopeed_torbox.Util.Match.{has_prefix, cut_at}
use gopeed_torbox.Http.Disposition.Names.{
  Texts, unescaped_or, part_behind_two, value_at, value_of, found, missing, panics, before,
  extended_key, parse_filename_extended, index_of, part_behind, percent_sign, hex_value,
  unescape_from, path_unescape, ready, percent, high, decode_extended, extended_value,
  decoded_value,
}

abbrev pub hex_digit : ℕ → ℕ
hex_digit n = if ltb n 10 then 48 + n else 55 + n

-- Each byte as `%` and two digits.
unfoldable pub percent_encode : List ℕ → List ℕ
percent_encode [] = []
percent_encode (c ∷ cs) = percent_sign ∷ hex_digit (c / 16) ∷ hex_digit (c % 16) ∷ percent_encode cs

unfoldable pub Bytes : List ℕ → Type 0
Bytes [] = Unit
Bytes (c ∷ cs) = (c < 256) × Bytes cs

hex_value-hex_digit : (n : ℕ) → n < 16 → hex_value (hex_digit n) ≡ some n
unfolding hex_value
hex_value-hex_digit n h = ground (arith, h)

unescape-percent :
    (a h : ℕ) (cs : List ℕ)
    → hex_value a ≡ some h
    → unescape_from percent (a ∷ cs) ≡ unescape_from (high h) cs
unfolding unescape_from
unescape-percent a h cs p = ap (λ v. elim v [ none ↦ none | some d ↦ unescape_from (high d) cs ]) p

unescape-high :
    (b h l : ℕ) (cs : List ℕ)
    → hex_value b ≡ some l
    → unescape_from (high h) (b ∷ cs) ≡ before (16 * h + l) (unescape_from ready cs)
unfolding unescape_from
unescape-high b h l cs p =
    ap (λ v. elim v [ none ↦ none | some d ↦ before (16 * h + d) (unescape_from ready cs) ]) p

div_mod_16 : (c : ℕ) → 16 * (c / 16) + c % 16 ≡ c
div_mod_16 c = omega arith

path_unescape-percent_encode :
    (name : List ℕ) → Bytes name → path_unescape (percent_encode name) ≡ some name
unfolding path_unescape unescape_from percent_encode Bytes
path_unescape-percent_encode [] h = refl
path_unescape-percent_encode (c ∷ cs) (small, h) =
    unescape-percent (hex_digit (c / 16)) (c / 16) (hex_digit (c % 16) ∷ percent_encode cs)
      (hex_value-hex_digit (c / 16) (omega arith))
    ∙ unescape-high (hex_digit (c % 16)) (c / 16) (c % 16) (percent_encode cs)
        (hex_value-hex_digit (c % 16) (omega arith))
    ∙ rw (path_unescape-percent_encode cs h, div_mod_16 c) refl

-- A byte that ends no value is passed over.
unquoted_end-pass :
    (passed cs : List ℕ) (i c : ℕ)
    → (c == semicolon) ≡ false
    → unquoted_end passed i (c ∷ cs) ≡ unquoted_end (c ∷ passed) (suc i) cs
unfolding unquoted_end
unquoted_end-pass passed cs i c h = rw h refl

hex_digit-semicolon : (n : ℕ) → (hex_digit n == semicolon) ≡ false
hex_digit-semicolon n = ground arith

unquoted_end-percent_encode :
    (passed name : List ℕ) (i : ℕ) → unquoted_end passed i (percent_encode name) ≡ none
unfolding unquoted_end percent_encode
unquoted_end-percent_encode passed [] i = refl
unquoted_end-percent_encode passed (c ∷ cs) i =
    let high_digit = hex_digit (c / 16) in
    let low_digit = hex_digit (c % 16) in
    unquoted_end-pass (percent_sign ∷ passed) (low_digit ∷ percent_encode cs) (suc i) high_digit
      (hex_digit-semicolon (c / 16))
    ∙ unquoted_end-pass (high_digit ∷ percent_sign ∷ passed) (percent_encode cs) (suc (suc i))
        low_digit (hex_digit-semicolon (c % 16))
    ∙ unquoted_end-percent_encode (low_digit ∷ high_digit ∷ percent_sign ∷ passed) cs
        (suc (suc (suc i)))

-- `UTF-8''` and the encoded name
abbrev pub extended : List ℕ → List ℕ
extended name = 85 ∷ 84 ∷ 70 ∷ 45 ∷ 56 ∷ 39 ∷ 39 ∷ percent_encode name

decode_extended-extended : (name : List ℕ) → Bytes name → decode_extended (extended name) ≡ name
unfolding decode_extended part_behind cut_at has_prefix
decode_extended-extended name h =
    ap
      (λ r. elim r [
        | none ↦ unescaped_or [] (part_behind_two (extended name))
        | some decoded ↦ decoded
      ])
      (path_unescape-percent_encode name h)

value_at-behind :
    (p key value : List ℕ) → value_at key (p ++ (key ++ value)) (some (length p)) ≡ found value
unfolding value_at
value_at-behind p key value =
    let sizes : length (p ++ (key ++ value)) ≡ length p + (length key + length value) =
      length-append p (key ++ value) ∙ ap (λ n. length p + n) (length-append key value) in
    let behind : drop (length p + length key) (p ++ (key ++ value)) ≡ value =
      drop-append p (key ++ value) (length key) ∙ drop-length key value in
    ground (arith, sizes, behind)

module _ (t : Texts) where
  extended_value-extended :
      (name : List ℕ)
      → Bytes name
      → t.trim (extended name) ≡ extended name
      → extended_value t (extended name) ≡ some name
  unfolding extended_value decoded_value cut find_param_value_end end_of unquoted_end
  extended_value-extended name h same =
      let open_end : find_param_value_end t.trim (extended name) ≡ none =
        ap end_of same
        ∙ unquoted_end-percent_encode (39 ∷ 39 ∷ 56 ∷ 45 ∷ 70 ∷ 84 ∷ 85 ∷ []) name 7 in
      ap (λ r. decoded_value t (cut (extended name) r)) open_end
      ∙ ap (λ v. some (decode_extended v)) same
      ∙ ap some (decode_extended-extended name h)

  module _ (order : List (List ℕ × List ℕ)) where
    -- A file name that is not empty, written at the end of a header behind `filename*=UTF-8''`
    -- with each byte as `%` and two digits, is read as that name, if the key is first found where
    -- it was written and TrimSpace leaves the value as it is.
    pub parse_filename-extended :
        (p : List ℕ) (c : ℕ) (cs : List ℕ)
        → Bytes (c ∷ cs)
        → t.trim (extended (c ∷ cs)) ≡ extended (c ∷ cs)
        → index_of extended_key (t.lower (p ++ (extended_key ++ extended (c ∷ cs))))
          ≡ some (length p)
        → parse_filename t order (p ++ (extended_key ++ extended (c ∷ cs))) ≡ some (c ∷ cs)
    unfolding parse_filename parse_otherwise parse_filename_extended value_of
    parse_filename-extended p c cs h same first =
        let value : value_of t extended_key (p ++ (extended_key ++ extended (c ∷ cs)))
            ≡ found (extended (c ∷ cs)) =
          ap (value_at extended_key (p ++ (extended_key ++ extended (c ∷ cs)))) first
          ∙ value_at-behind p extended_key (extended (c ∷ cs)) in
        ap
          (λ v.
            parse_otherwise t order (p ++ (extended_key ++ extended (c ∷ cs)))
              (elim v [ missing ↦ some [] | panics ↦ none | found v ↦ extended_value t v ]))
          value
        ∙ ap (parse_otherwise t order (p ++ (extended_key ++ extended (c ∷ cs))))
            (extended_value-extended (c ∷ cs) h same)
