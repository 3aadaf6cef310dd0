-- ===== src/Http/Disposition.antt =====
-- internal/protocol/http/helper.go: the value of a parameter in a Content-Disposition header, as
-- `parseFilenameFallback` reads it. A text is the list of its bytes; `trim` stands for `strings.TrimSpace`.
pub mod Quoted
pub mod Names
pub mod Slices
use gopeed_torbox.Base.{
  ℕ, zero, suc, ◌+◌, ◌-◌, Bool, true, false, not, ◌&&◌, ◌||◌, Option, none, some, List, [], ◌∷◌,
  leb, ◌==◌, if◌then◌else◌, length, take, drop, get_elem?,
}

-- `"`, `'`, `\`, `;`, `&` and the space
abbrev pub double_quote : ℕ
double_quote = 34

abbrev pub single_quote : ℕ
single_quote = 39

abbrev pub backslash : ℕ
backslash = 92

abbrev pub semicolon : ℕ
semicolon = 59

abbrev pub ampersand : ℕ
ampersand = 38

abbrev pub space : ℕ
space = 32

unfoldable pub is_valid_html_entity_char : ℕ → Bool
is_valid_html_entity_char c =
    (leb 97 c && leb c 122) || ((leb 65 c && leb c 90) || ((leb 48 c && leb c 57) || c == 35))

unfoldable pub all_valid : List ℕ → Bool
unfolding is_valid_html_entity_char
all_valid [] = true
all_valid (c ∷ cs) = is_valid_html_entity_char c && all_valid cs

unfoldable pub is_valid_html_entity_chars : List ℕ → Bool
unfolding all_valid
is_valid_html_entity_chars [] = false
is_valid_html_entity_chars (c ∷ cs) = all_valid (c ∷ cs)

-- The search for `&` before a semicolon, among at most `n` bytes, the nearest first.
unfoldable pub is_entity : ℕ → List ℕ → List ℕ → Bool
unfolding is_valid_html_entity_chars
is_entity zero before entity_chars = false
is_entity (suc n) [] entity_chars = false
is_entity (suc n) (c ∷ cs) entity_chars =
    let rest = is_entity n cs (c ∷ entity_chars) in
    if c == ampersand
    then is_valid_html_entity_chars entity_chars
    else if c == space || (c == double_quote || c == single_quote)
    then false
    else rest

unfoldable pub first_semicolon : ℕ → List ℕ → Option ℕ
first_semicolon i [] = none
first_semicolon i (c ∷ cs) =
    let rest = first_semicolon (suc i) cs in if c == semicolon then some i else rest

-- The loop over an unquoted value; `before` are the bytes passed, the last first. `none` is -1.
unfoldable pub unquoted_end : List ℕ → ℕ → List ℕ → Option ℕ
unfolding is_entity
unquoted_end before i [] = none
unquoted_end before i (c ∷ cs) =
    let rest = unquoted_end (c ∷ before) (suc i) cs in
    if c == semicolon && not (is_entity 10 before []) then some i else rest

-- The loop over a quoted value, after the byte `previous`.
unfoldable pub quoted_end : ℕ → ℕ → ℕ → List ℕ → Option ℕ
unfolding first_semicolon
quoted_end quote previous i [] = none
quoted_end quote previous i (c ∷ cs) =
    let rest = quoted_end quote c (suc i) cs in
    if c == quote && not (previous == backslash) then first_semicolon (suc i) cs else rest

abbrev pub end_of : List ℕ → Option ℕ
unfolding quoted_end unquoted_end
end_of [] = some 0
end_of (c ∷ cs) =
    if c == double_quote || c == single_quote
    then quoted_end c c 1 cs
    else unquoted_end [] 0 (c ∷ cs)

-- `value[a:b]`; `none` is a panic, as it is wherever a text is an option below.
unfoldable pub slice : ℕ → ℕ → List ℕ → Option (List ℕ)
slice a b value =
    if leb a b && leb b (length value) then some (take (b - a) (drop a value)) else none

unfoldable pub cut : List ℕ → Option ℕ → Option (List ℕ)
unfolding slice
cut value none = some value
cut value (some n) = slice 0 n value

unfoldable pub unquote : List ℕ → Option ℕ → Option ℕ → Option (List ℕ)
unfolding slice
unquote value none last = none
unquote value (some first) none = none
unquote value (some first) (some last) =
    if first == last && (first == double_quote || first == single_quote)
    then slice 1 (length value - 1) value
    else some value

-- The removal of surrounding quotes from a value of two bytes or more; an index out of range is a
-- panic too.
unfoldable pub without_quotes : List ℕ → Option (List ℕ)
unfolding unquote
without_quotes value =
    if leb 2 (length value)
    then unquote value (get_elem? value 0) (get_elem? value (length value - 1))
    else some value

-- `filename=`
abbrev pub filename_key : List ℕ
filename_key = 102 ∷ 105 ∷ 108 ∷ 101 ∷ 110 ∷ 97 ∷ 109 ∷ 101 ∷ 61 ∷ []

module _ (trim : List ℕ → List ℕ) where
  unfoldable pub find_param_value_end : List ℕ → Option ℕ
  unfolding end_of
  find_param_value_end value = end_of (trim value)

  unfoldable pub trimmed_value : Option (List ℕ) → Option (List ℕ)
  unfolding without_quotes
  trimmed_value none = none
  trimmed_value (some value) = without_quotes (trim value)

  unfoldable pub param_value : List ℕ → Option (List ℕ)
  unfolding find_param_value_end trimmed_value cut
  param_value value = trimmed_value (cut value (find_param_value_end value))
