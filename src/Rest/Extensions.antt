-- ===== src/Rest/Extensions.antt =====
-- pkg/rest/api.go: the requests on extensions, over the downloader's list of them. A body that cannot be decoded
-- is `none`; what the file system does, and the time, come with a request.
pub mod Stored
use Prim.Native.String.{String}
use gopeed_torbox.Base.{ℕ, Bool, true, false, Option, none, some, List, [], ◌∷◌, ◌++◌, Assoc}
use gopeed_torbox.Extension.Manifest.{Extension, ManifestRead, parse_extension}
use gopeed_torbox.Extension.Registry.{
  Registry, get_extension, install_extension_by_folder, switch_extension, update_extension_settings,
  delete_extension,
}
use gopeed_torbox.Extension.Source.{GitSource, git_source}
use gopeed_torbox.Extension.Upgrade.{
  install_extension_by_git, upgrade_check_extension, upgrade_extension,
}
use gopeed_torbox.Download.Storage.Interface.{Storage}

-- pkg/rest/model/extension.go
pub record InstallBody : Type 0 where
  pub dev_mode : Bool
  pub url : List ℕ

pub data ExtensionRequest (V : Type 0) : Type 0 where
  install_request : Option InstallBody → Bool → ℕ → ExtensionRequest V
  list_request : ExtensionRequest V
  get_request check_request : String → ExtensionRequest V
  settings_request : String → Option (Assoc (Option V)) → ExtensionRequest V
  switch_request : String → Option Bool → ExtensionRequest V
  delete_request : String → Bool → ExtensionRequest V
  update_request : String → Bool → ℕ → ExtensionRequest V

-- What is written to the client. `WriteJson` writes the status 200 for all of them.
pub data Written (V : Type 0) : Type 0 where
  nil_written error_written : Written V
  identity_written version_written : String → Written V
  extension_written : Extension V → Written V
  list_written : List (Extension V) → Written V

module _ {V : Type 0} where
  abbrev pub identity_of : Option (Extension V) → List (Written V)
  identity_of none = error_written ∷ []
  identity_of (some e) = identity_written e.identity ∷ []

  abbrev pub parsed_clone : Option (ManifestRead V) → Option (Extension V)
  unfolding parse_extension
  parsed_clone none = none
  parsed_clone (some manifest) = parse_extension manifest

  abbrev pub found_written : Option (Extension V) → Written V
  found_written none = error_written
  found_written (some e) = extension_written e

  abbrev pub version_of : Option String → Written V
  version_of none = error_written
  version_of (some v) = version_written v

module _ {V S : Type 0} where
  abbrev pub result_written : Registry V S × Bool → Registry V S × List (Written V)
  result_written (r, true) = (r, nil_written ∷ [])
  result_written (r, false) = (r, error_written ∷ [])

  -- `ReadJson` has answered with its error, and the handler writes its own answer too.
  abbrev pub unread : Registry V S → Registry V S × List (Written V)
  unread r = (r, error_written ∷ nil_written ∷ [])

  abbrev pub installed :
      Option (Extension V) → Registry V S × Bool → Registry V S × List (Written V)
  installed e (r, true) = (r, identity_of e)
  installed e (r, false) = (r, error_written ∷ [])

-- `abs` is the absolute path of a folder, `read_folder` the manifest in it, and `fetch` that of a clone.
module _ {V S Z : Type 0} (st : Storage S Z) (as_value : Extension V → Z) (sprint : V → String)
    (of_text : String → V) (parse_float parse_bool : String → Option V) (abs : List ℕ → String)
    (read_folder : List ℕ → ManifestRead V) (fetch : GitSource → Option (ManifestRead V)) where
  unfoldable pub install_with :
      Bool → List ℕ → Bool → ℕ → Registry V S → Registry V S × List (Written V)
  unfolding install_extension_by_folder install_extension_by_git git_source parsed_clone
  install_with true url copied now r =
      installed (parse_extension (read_folder url))
        (install_extension_by_folder st as_value (read_folder url) true (abs url) copied now r)
  install_with false url copied now r =
      installed (parsed_clone (fetch (git_source url)))
        (install_extension_by_git st as_value fetch url copied now r)

  unfoldable pub serve_extension :
      ExtensionRequest V → Registry V S → Registry V S × List (Written V)
  unfolding install_with get_extension upgrade_check_extension upgrade_extension switch_extension
      update_extension_settings delete_extension
  serve_extension (install_request none copied now) r = (r, error_written ∷ [])
  serve_extension (install_request (some b) copied now) r =
      install_with b.dev_mode b.url copied now r
  serve_extension list_request r = (r, list_written r.extensions ∷ [])
  serve_extension (get_request i) r = (r, found_written (get_extension i r.extensions) ∷ [])
  serve_extension (check_request i) r =
      (r, version_of (upgrade_check_extension st as_value fetch i r) ∷ [])
  serve_extension (settings_request i none) r = unread r
  serve_extension (settings_request i (some given)) r =
      result_written
        (update_extension_settings st as_value sprint of_text parse_float parse_bool i given r)
  serve_extension (switch_request i none) r = unread r
  serve_extension (switch_request i (some status)) r =
      result_written (switch_extension st as_value i status r)
  serve_extension (delete_request i removable) r =
      result_written (delete_extension st as_value i removable r)
  serve_extension (update_request i copied now) r =
      result_written (upgrade_extension st as_value fetch i copied now r)

  -- The requests one after another, with all that is written.
  unfoldable pub serve_extensions :
      List (ExtensionRequest V) → Registry V S → Registry V S × List (Written V)
  unfolding serve_extension
  serve_extensions [] r = (r, [])
  serve_extensions (q ∷ qs) r =
      let next = serve_extension q r in
      let rest = serve_extensions qs next.0 in (rest.0, next.1 ++ rest.1)
