-- ===== src/Rest/Extensions/Stored.antt =====
-- pkg/rest/api.go: requests on extensions and what is stored of the extensions.
use Prim.Native.String.{String}
use gopeed_torbox.Base.{ℕ, Bool, true, false, Option, none, some, List, [], ◌∷◌}
use gopeed_torbox.Extension.Manifest.{Extension, ManifestRead}
use gopeed_torbox.Extension.Registry.{Registry, get_extension}
use gopeed_torbox.Extension.Registry.Stored.{Agrees, NeverFails}
use gopeed_torbox.Extension.Registry.History.{
  Op, step, step-Agrees, install, switch, settings, remove,
}
use gopeed_torbox.Extension.Source.{GitSource, git_source, build_install_url}
use gopeed_torbox.Extension.Upgrade.{
  install_cloned, install_extension_by_git, upgrade_url, upgrade_extension, upgrade_found,
}
use gopeed_torbox.Rest.Extensions.{
  ExtensionRequest, install_request, list_request, get_request, check_request, settings_request,
  switch_request, delete_request, update_request, result_written, installed, install_with,
  serve_extension, serve_extensions,
}
use gopeed_torbox.Download.Storage.Interface.{Storage}

module _ {V S Z : Type 0} (st : Storage S Z) (as_value : Extension V → Z) (sprint : V → String)
    (of_text : String → V) (parse_float parse_bool : String → Option V) (abs : List ℕ → String)
    (read_folder : List ℕ → ManifestRead V) (fetch : GitSource → Option (ManifestRead V))
    (sure : NeverFails st as_value) where
  result_written-Agrees :
      (x : Registry V S × Bool) → Agrees st as_value x.0 → Agrees st as_value (result_written x).0
  result_written-Agrees (r, true) a = a
  result_written-Agrees (r, false) a = a

  installed-Agrees :
      (e : Option (Extension V)) (x : Registry V S × Bool)
      → Agrees st as_value x.0
      → Agrees st as_value (installed e x).0
  installed-Agrees e (r, true) a = a
  installed-Agrees e (r, false) a = a

  stepped :
      (op : Op V) (r : Registry V S)
      → Agrees st as_value r
      → Agrees st as_value (step st as_value sprint of_text parse_float parse_bool op r)
  stepped op r a = step-Agrees st as_value sprint of_text parse_float parse_bool sure op r a

  cloned-Agrees :
      (m : Option (ManifestRead V)) (copied : Bool) (now : ℕ) (r : Registry V S)
      → Agrees st as_value r
      → Agrees st as_value (install_cloned st as_value fetch m copied now r).0
  unfolding install_cloned step
  cloned-Agrees none copied now r a = a
  cloned-Agrees (some m) copied now r a = stepped (install m false "" copied now) r a

  by_git-Agrees :
      (url : List ℕ) (copied : Bool) (now : ℕ) (r : Registry V S)
      → Agrees st as_value r
      → Agrees st as_value (install_extension_by_git st as_value fetch url copied now r).0
  unfolding install_extension_by_git
  by_git-Agrees url copied now r a = cloned-Agrees (fetch (git_source url)) copied now r a

  install_with-Agrees :
      (dev_mode : Bool) (url : List ℕ) (copied : Bool) (now : ℕ) (r : Registry V S)
      → Agrees st as_value r
      → Agrees st as_value
          (install_with st as_value sprint of_text parse_float parse_bool abs read_folder fetch
            dev_mode url copied now r).0
  unfolding install_with step
  install_with-Agrees true url copied now r a =
      installed-Agrees _ _ (stepped (install (read_folder url) true (abs url) copied now) r a)
  install_with-Agrees false url copied now r a =
      installed-Agrees _ _ (by_git-Agrees url copied now r a)

  upgrade_url-Agrees :
      (url : List ℕ) (copied : Bool) (now : ℕ) (r : Registry V S)
      → Agrees st as_value r
      → Agrees st as_value (upgrade_url st as_value fetch url copied now r).0
  unfolding upgrade_url
  upgrade_url-Agrees [] copied now r a = a
  upgrade_url-Agrees (b ∷ bs) copied now r a = by_git-Agrees (b ∷ bs) copied now r a

  upgrade-Agrees :
      (e : Option (Extension V)) (copied : Bool) (now : ℕ) (r : Registry V S)
      → Agrees st as_value r
      → Agrees st as_value (upgrade_found st as_value fetch e copied now r).0
  unfolding upgrade_found
  upgrade-Agrees none copied now r a = a
  upgrade-Agrees (some e) copied now r a =
      upgrade_url-Agrees (build_install_url e.repository) copied now r a

  serve-Agrees :
      (q : ExtensionRequest V) (r : Registry V S)
      → Agrees st as_value r
      → Agrees st as_value
          (serve_extension st as_value sprint of_text parse_float parse_bool abs read_folder fetch q
            r).0
  unfolding serve_extension step upgrade_extension
  serve-Agrees (install_request none copied now) r a = a
  serve-Agrees (install_request (some b) copied now) r a =
      install_with-Agrees b.dev_mode b.url copied now r a
  serve-Agrees list_request r a = a
  serve-Agrees (get_request i) r a = a
  serve-Agrees (check_request i) r a = a
  serve-Agrees (settings_request i none) r a = a
  serve-Agrees (settings_request i (some given)) r a =
      result_written-Agrees _ (stepped (settings i given) r a)
  serve-Agrees (switch_request i none) r a = a
  serve-Agrees (switch_request i (some status)) r a =
      result_written-Agrees _ (stepped (switch i status) r a)
  serve-Agrees (delete_request i removable) r a =
      result_written-Agrees _ (stepped (remove i removable) r a)
  serve-Agrees (update_request i copied now) r a =
      result_written-Agrees _ (upgrade-Agrees (get_extension i r.extensions) copied now r a)

  -- In a storage whose Put and Delete return no error, after any requests on extensions, with
  -- bodies that can be decoded or not, folders and clones with or without a manifest, and updates,
  -- no two extensions in the list have the same identity, and what is stored is exactly the list,
  -- each extension under its identity, if that was so before.
  pub serve_extensions-Agrees :
      (qs : List (ExtensionRequest V)) (r : Registry V S)
      → Agrees st as_value r
      → Agrees st as_value
          (serve_extensions st as_value sprint of_text parse_float parse_bool abs read_folder fetch
            qs r).0
  unfolding serve_extensions
  serve_extensions-Agrees [] r a = a
  serve_extensions-Agrees (q ∷ qs) r a = serve_extensions-Agrees qs _ (serve-Agrees q r a)
