-- ===== src/Extension/Tests.antt =====
-- Examples for extensions.
mod Events
use Prim.Native.String.{String}
use text.Mathlib.Text.{◌==◌ as str_eq}
use gopeed_torbox.Base.{
  ℕ, ◌+◌, ◌≡◌, refl, Bool, true, false, ◌||◌, Option, none, some, List, [], ◌∷◌, ◌++◌, arith, ◌==◌,
  if◌then◌else◌, Assoc, lookup, insert,
}
use gopeed_torbox.Util.Match.{
  has_prefix, has_suffix, has_byte, parse_pattern, match_url, match_parsed, match_host, match_path,
  split_scheme, split_path, cut_at, slashed_path, slashed_pattern, Url,
}
use gopeed_torbox.Download.Storage.{MemStorage, bucket_of, setup, new_mem_storage, get, put, delete}
use gopeed_torbox.Download.Storage.Laws.{has_bucket}
use gopeed_torbox.Download.Storage.Interface.{Storage, mem_storage}
use gopeed_torbox.Rest.Extensions.{
  ExtensionRequest, install_request, update_request, switch_request, serve_extensions,
}
use gopeed_torbox.Rest.Extensions.Stored.{serve_extensions-Agrees}
use gopeed_torbox.Extension.Manifest.{
  no_manifest, Extension, Setting, Repository, Script, Rules, ManifestRead, decoded,
}
use gopeed_torbox.Extension.Settings.{has_setting, merge_settings}
use gopeed_torbox.Extension.Settings.Merged.{
  setting_of, distinct_names, updated, setting_of-merge_settings,
}
use gopeed_torbox.Extension.Registry.{
  Registry, get_extension, bucket_extension, bucket_extension_storage,
}
use gopeed_torbox.Extension.Registry.Identities.{distinct}
use gopeed_torbox.Extension.Registry.Stored.{Agrees, NeverFails}
use gopeed_torbox.Extension.Registry.History.{Op, install, switch, remove, run, run-Agrees}
use gopeed_torbox.Extension.Source.{
  GitSource, git_source, build_install_url, git_suffix, hash, http, https,
}
use gopeed_torbox.Extension.Source.Found.{
  repository_url, git_source-build_install_url, git_source-nested,
}

abbrev setting : String → String → Option ℕ → Setting ℕ
setting name type value = record {
  name = name;
  title = "";
  description = "";
  required = false;
  type = type;
  value = value;
  options = [];
}

abbrev olds : List (Setting ℕ)
olds = setting "a" "number" (some 1) ∷ setting "b" "string" (some 2) ∷ []

abbrev news : List (Setting ℕ)
news = setting "c" "string" (some 3) ∷ setting "a" "string" (some 4) ∷ []

setting_of-merge_settings_example :
    setting_of "a" (merge_settings olds news) ≡ updated (setting_of "a" olds) (setting_of "a" news)
unfolding distinct_names has_setting
setting_of-merge_settings_example = setting_of-merge_settings "a" olds news refl

abbrev extension : Extension ℕ
extension = record {
  identity = "";
  name = "n";
  author = "a";
  title = "t";
  description = "";
  icon = "";
  version = "1";
  homepage = "";
  repository = none;
  scripts = [];
  settings = olds;
  disabled = false;
  dev_mode = false;
  dev_path = "";
  created_at = 0;
  updated_at = 0;
}

abbrev memory : Storage (MemStorage (Extension ℕ)) (Extension ℕ)
unfolding mem_storage
memory = mem_storage (λ e. e)

abbrev registry : Registry ℕ (MemStorage (Extension ℕ))
unfolding setup new_mem_storage
registry = record {
  extensions = [];
  stored = setup (bucket_extension ∷ bucket_extension_storage ∷ []) new_mem_storage;
}

memory-NeverFails : NeverFails memory (λ e. e)
unfolding memory mem_storage
memory-NeverFails = record {
  puts_some = λ b k v s. (put b k v s, refl);
  deletes_some = λ b k s. (delete b k s, refl);
}

registry-Agrees : Agrees memory (λ e. e) registry
unfolding memory registry mem_storage has_bucket bucket_of setup new_mem_storage distinct get lookup
    insert get_extension
registry-Agrees = record { bucket = refl; identities = refl; same = λ i. refl }

-- Installed from a repository, updated, switched off with a body that is read and one that is not.
abbrev requests : List (ExtensionRequest ℕ)
requests =
    install_request (some (record { dev_mode = false; url = 104 ∷ [] })) true 5
    ∷ update_request "a@n" true 6
    ∷ switch_request "a@n" none
    ∷ switch_request "a@n" (some false)
    ∷ []

serve_extensions-Agrees_example :
    Agrees memory
      (λ e. e)
      (serve_extensions memory
        (λ e. e)
        (λ n. "")
        (λ s. 0)
        (λ s. none)
        (λ s. none)
        (λ s. "")
        (λ s. no_manifest)
        (λ s. some (decoded extension))
        requests
        registry).0
serve_extensions-Agrees_example =
    serve_extensions-Agrees memory (λ e. e) (λ n. "") (λ s. 0) (λ s. none) (λ s. none) (λ s. "")
      (λ s. no_manifest) (λ s. some (decoded extension)) memory-NeverFails requests registry
      registry-Agrees

-- `https://h/p`, with the directories `d` and `d/e`.
git_source-build_install_url_example :
    git_source (
      build_install_url
        (some (record { url = repository_url (104 ∷ []) 112 []; directory = 100 ∷ [] })))
    ≡ record { git_url = repository_url (104 ∷ []) 112 [] ++ git_suffix; sub_path = 100 ∷ [] }
unfolding has_byte has_suffix
git_source-build_install_url_example =
    git_source-build_install_url (104 ∷ []) 112 [] (100 ∷ []) refl refl refl refl
