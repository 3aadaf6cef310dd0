-- ===== src/Extension/Upgrade.antt =====
-- pkg/download/extension.go: extensions that are cloned from their repositories. `fetch` is what a clone of a
-- source has as its manifest, `none` a clone that fails.
use Prim.Native.String.{String}
use text.Mathlib.Text.{◌==◌ as str_eq}
use gopeed_torbox.Base.{ℕ, Bool, true, false, Option, none, some, List, [], ◌∷◌, if◌then◌else◌}
use gopeed_torbox.Extension.Manifest.{Extension, ManifestRead, parse_extension}
use gopeed_torbox.Extension.Registry.{Registry, get_extension, install_extension_by_folder}
use gopeed_torbox.Extension.Source.{GitSource, git_source, build_install_url}
use gopeed_torbox.Download.Storage.Interface.{Storage}

module _ {V S Z : Type 0} (st : Storage S Z) (as_value : Extension V → Z)
    (fetch : GitSource → Option (ManifestRead V)) where
  unfoldable pub install_cloned :
      Option (ManifestRead V) → Bool → ℕ → Registry V S → Registry V S × Bool
  unfolding install_extension_by_folder
  install_cloned none copied now r = (r, false)
  install_cloned (some manifest) copied now r =
      install_extension_by_folder st as_value manifest false "" copied now r

  -- `InstallExtensionByGit`
  unfoldable pub install_extension_by_git : List ℕ → Bool → ℕ → Registry V S → Registry V S × Bool
  unfolding install_cloned git_source
  install_extension_by_git url copied now r = install_cloned (fetch (git_source url)) copied now r

  abbrev pub newer_version : Extension V → Option (Extension V) → Option String
  newer_version e none = none
  newer_version e (some t) = some (if str_eq t.version e.version then "" else t.version)

  abbrev pub cloned_version : Extension V → Option (ManifestRead V) → Option String
  unfolding parse_extension
  cloned_version e none = none
  cloned_version e (some manifest) = newer_version e (parse_extension manifest)

  abbrev pub check_url : Extension V → List ℕ → Option String
  unfolding cloned_version git_source
  check_url e [] = some ""
  check_url e (b ∷ bs) = cloned_version e (fetch (git_source (b ∷ bs)))

  -- `UpgradeCheckExtension`: the new version, empty where there is none; `none` is an error.
  unfoldable pub upgrade_check_extension : String → Registry V S → Option String
  unfolding get_extension check_url build_install_url
  upgrade_check_extension i r = elim (get_extension i r.extensions) [
    | none ↦ none
    | some e ↦ check_url e (build_install_url e.repository)
  ]

  unfoldable pub upgrade_url : List ℕ → Bool → ℕ → Registry V S → Registry V S × Bool
  unfolding install_extension_by_git
  upgrade_url [] copied now r = (r, true)
  upgrade_url (b ∷ bs) copied now r = install_extension_by_git (b ∷ bs) copied now r

  unfoldable pub upgrade_found :
      Option (Extension V) → Bool → ℕ → Registry V S → Registry V S × Bool
  unfolding upgrade_url build_install_url
  upgrade_found none copied now r = (r, false)
  upgrade_found (some e) copied now r = upgrade_url (build_install_url e.repository) copied now r

  -- `UpgradeExtension`
  unfoldable pub upgrade_extension : String → Bool → ℕ → Registry V S → Registry V S × Bool
  unfolding get_extension upgrade_found
  upgrade_extension i copied now r = upgrade_found (get_extension i r.extensions) copied now r
