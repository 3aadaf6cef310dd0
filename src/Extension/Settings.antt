-- ===== src/Extension/Settings.antt =====
-- pkg/download/extension.go: `update`, which takes over a new version of an extension and merges the
-- settings, the values given by the user, and `parseSettings`.
pub mod Merged
use Prim.Native.String.{String}
use text.Mathlib.Text.{◌==◌ as str_eq}
use gopeed_torbox.Base.{
  ℕ, Bool, true, false, not, ◌||◌, Option, none, some, List, [], ◌∷◌, ◌++◌, if◌then◌else◌, Assoc,
  lookup, insert,
}
use gopeed_torbox.Extension.Manifest.{Setting, Extension}

module _ {V : Type 0} where
  unfoldable pub has_setting : String → List (Setting V) → Bool
  has_setting k [] = false
  has_setting k (s ∷ ss) = str_eq s.name k || has_setting k ss

  -- The first loop: new settings that are not there yet are appended.
  unfoldable pub append_missing : List (Setting V) → List (Setting V) → List (Setting V)
  unfolding has_setting
  append_missing old [] = old
  append_missing old (n ∷ ns) =
      append_missing (if has_setting n.name old then old else old ++ n ∷ []) ns

  -- The second loop: settings that the new version does not have are removed.
  unfoldable pub remove_gone : List (Setting V) → List (Setting V) → List (Setting V)
  unfolding has_setting
  remove_gone new [] = []
  remove_gone new (s ∷ ss) =
      let rest = remove_gone new ss in if has_setting s.name new then s ∷ rest else rest

  -- The value is kept if the type is the same.
  unfoldable pub merge_setting : Setting V → Setting V → Setting V
  merge_setting n s =
      if str_eq s.type n.type
      then record s { title = n.title; description = n.description; options = n.options }
      else record s {
        title = n.title;
        description = n.description;
        options = n.options;
        type = n.type;
        value = n.value;
      }

  unfoldable pub refresh_setting : Setting V → List (Setting V) → List (Setting V)
  unfolding merge_setting
  refresh_setting n [] = []
  refresh_setting n (s ∷ ss) =
      let rest = refresh_setting n ss in
      if str_eq s.name n.name then merge_setting n s ∷ ss else s ∷ rest

  -- The third loop.
  unfoldable pub refresh_settings : List (Setting V) → List (Setting V) → List (Setting V)
  unfolding refresh_setting
  refresh_settings [] ss = ss
  refresh_settings (n ∷ ns) ss = refresh_settings ns (refresh_setting n ss)

  unfoldable pub merge_settings : List (Setting V) → List (Setting V) → List (Setting V)
  unfolding append_missing remove_gone refresh_settings
  merge_settings old new = refresh_settings new (remove_gone new (append_missing old new))

  unfoldable pub update_extension : Extension V → Extension V → ℕ → Extension V
  unfolding merge_settings
  update_extension e new now = record e {
    title = new.title;
    description = new.description;
    icon = new.icon;
    version = new.version;
    homepage = new.homepage;
    repository = new.repository;
    scripts = new.scripts;
    settings = merge_settings e.settings new.settings;
    updated_at = now;
  }

-- `fmt.Sprint`, `strconv.ParseFloat` and `strconv.ParseBool`, with values for their results.
module _ {V : Type 0} (sprint : V → String) (of_text : String → V)
    (parse_float parse_bool : String → Option V) where
  abbrev pub parse_as : String → V → Option V
  parse_as type v =
      if str_eq type "string"
      then some (of_text (sprint v))
      else if str_eq type "number"
      then parse_float (sprint v)
      else if str_eq type "boolean"
      then parse_bool (sprint v)
      else none

  unfoldable pub try_parse : Option V → String → Option V
  try_parse none type = none
  try_parse (some v) type = parse_as type v

  -- The loop of `UpdateExtensionSettings`; the map can hold nil for a name.
  unfoldable pub set_values : Assoc (Option V) → List (Setting V) → List (Setting V)
  unfolding try_parse
  set_values given [] = []
  set_values given (s ∷ ss) =
      (elim (lookup s.name given) [ none ↦ s | some v ↦ record s { value = try_parse v s.type } ])
      ∷ set_values given ss

  unfoldable pub parse_settings : List (Setting V) → Assoc (Option V) → Assoc (Option V)
  unfolding try_parse
  parse_settings [] m = m
  parse_settings (s ∷ ss) m = parse_settings ss (insert s.name (try_parse s.value s.type) m)
