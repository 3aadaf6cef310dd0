-- ===== src/Extension/Registry.antt =====
-- pkg/download/extension.go: the list of the installed extensions and its operations, over a storage. An
-- operation returns the new state, and whether there is no error. What the file system does, and the time,
-- are arguments.
pub mod Identities
pub mod Stored
pub mod History
use Prim.Native.String.{String}
use text.Mathlib.Text.{◌==◌ as str_eq}
use gopeed_torbox.Base.{
  ℕ, Bool, true, false, not, Option, none, some, List, [], ◌∷◌, ◌++◌, if◌then◌else◌, Assoc,
}
use gopeed_torbox.Extension.Manifest.{Extension, ManifestRead, parse_extension}
use gopeed_torbox.Extension.Settings.{update_extension, set_values}
use gopeed_torbox.Download.Storage.Interface.{Storage}

abbrev pub bucket_extension : String
bucket_extension = "extension"

abbrev pub bucket_extension_storage : String
bucket_extension_storage = "extension_storage"

pub record Registry (V S : Type 0) : Type 0 where
  pub extensions : List (Extension V)
  pub stored : S

module _ {V : Type 0} where
  unfoldable pub get_extension : String → List (Extension V) → Option (Extension V)
  get_extension i [] = none
  get_extension i (e ∷ es) = if str_eq e.identity i then some e else get_extension i es

  -- A change of the extension that `get_extension` finds, through its pointer.
  unfoldable pub replaced : Extension V → List (Extension V) → List (Extension V)
  replaced new [] = []
  replaced new (e ∷ es) =
      let rest = replaced new es in if str_eq e.identity new.identity then new ∷ es else e ∷ rest

  -- The loop of `DeleteExtension`.
  unfoldable pub without_extension : String → List (Extension V) → List (Extension V)
  without_extension i [] = []
  without_extension i (e ∷ es) =
      let rest = without_extension i es in if str_eq e.identity i then es else e ∷ rest

  abbrev pub with_path : Bool → String → Extension V → Extension V
  with_path dev_mode path e = if dev_mode then record e { dev_mode = true; dev_path = path } else e

-- `as_value` is an extension as a value of the storage; `try_parse` that of `Extension.Settings`.
module _ {V S Z : Type 0} (st : Storage S Z) (as_value : Extension V → Z) where
  -- `d.storage.Put(bucketExtension, ext.Identity, ext)`, whose error is returned.
  abbrev pub put_extension : Extension V → List (Extension V) → S → Registry V S × Bool
  put_extension e es s = elim (st.puts bucket_extension e.identity (as_value e) s) [
    | none ↦ (record { extensions = es; stored = s }, false)
    | some t ↦ (record { extensions = es; stored = t }, true)
  ]

  abbrev pub install_over :
      ℕ → Extension V → Registry V S → Option (Extension V) → Registry V S × Bool
  unfolding update_extension
  install_over now e r none =
      let new = record e { created_at = now; updated_at = now } in
      put_extension new (r.extensions ++ new ∷ []) r.stored
  install_over now e r (some old) =
      let new = update_extension old e now in put_extension new (replaced new r.extensions) r.stored

  abbrev pub install_parsed :
      Bool → String → Bool → ℕ → Option (Extension V) → Registry V S → Registry V S × Bool
  unfolding get_extension
  install_parsed dev_mode path copied now none r = (r, false)
  install_parsed dev_mode path copied now (some e) r =
      if dev_mode
      then install_over now (with_path dev_mode path e) r (get_extension e.identity r.extensions)
      else if copied
      then install_over now e r (get_extension e.identity r.extensions)
      else (r, false)

  -- `InstallExtensionByFolder`: the read manifest, whether in development, the absolute path, and whether
  -- the folder could be copied.
  unfoldable pub install_extension_by_folder :
      ManifestRead V → Bool → String → Bool → ℕ → Registry V S → Registry V S × Bool
  unfolding parse_extension
  install_extension_by_folder manifest dev_mode path copied now r =
      install_parsed dev_mode path copied now (parse_extension manifest) r

  abbrev pub change_found :
      (Extension V → Extension V) → Option (Extension V) → Registry V S → Registry V S × Bool
  unfolding replaced
  change_found f none r = (r, false)
  change_found f (some e) r = put_extension (f e) (replaced (f e) r.extensions) r.stored

  unfoldable pub switch_extension : String → Bool → Registry V S → Registry V S × Bool
  unfolding get_extension
  switch_extension i status r =
      change_found (λ e. record e { disabled = not status }) (get_extension i r.extensions) r

  -- The first four arguments are those of `Extension.Settings`.
  unfoldable pub update_extension_settings :
      (V → String)
      → (String → V)
      → (String → Option V)
      → (String → Option V)
      → String
      → Assoc (Option V)
      → Registry V S
      → Registry V S × Bool
  unfolding get_extension set_values
  update_extension_settings sprint of_text parse_float parse_bool i given r =
      change_found
        (λ e. record e {
          settings = set_values sprint of_text parse_float parse_bool given e.settings;
        })
        (get_extension i r.extensions) r

  -- The two deletions of `DeleteExtension` in the storage.
  abbrev pub delete_stored : String → List (Extension V) → S → Registry V S × Bool
  delete_stored i es s = elim (st.deletes bucket_extension i s) [
    | none ↦ (record { extensions = es; stored = s }, false)
    | some t ↦ elim (st.deletes bucket_extension_storage i t) [
      | none ↦ (record { extensions = es; stored = t }, false)
      | some u ↦ (record { extensions = es; stored = u }, true)
    ]
  ]

  abbrev pub delete_found :
      Bool → String → Option (Extension V) → Registry V S → Registry V S × Bool
  unfolding without_extension
  delete_found removable i none r = (r, false)
  delete_found removable i (some e) r =
      if e.dev_mode
      then delete_stored i (without_extension i r.extensions) r.stored
      else if removable
      then delete_stored i (without_extension i r.extensions) r.stored
      else (r, false)

  -- `removable` is whether the folder can be removed.
  unfoldable pub delete_extension : String → Bool → Registry V S → Registry V S × Bool
  unfolding get_extension
  delete_extension i removable r = delete_found removable i (get_extension i r.extensions) r
