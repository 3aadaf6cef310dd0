-- ===== src/Extension/Source.antt =====
-- pkg/download/extension.go: the URL under which an extension is installed, made of its repository by
-- `buildInstallUrl` and taken apart by `fetchExtensionByGit`. A text is the list of its bytes.
pub mod Found
use gopeed_torbox.Base.{
  ℕ, ◌+◌, ◌-◌, Bool, true, false, not, ◌&&◌, Option, none, some, List, [], ◌∷◌, ◌++◌, length, take,
  drop, if◌then◌else◌,
}
use gopeed_torbox.Util.Match.{has_prefix, has_suffix, cut_at, slash}
use gopeed_torbox.Util.Filename.{last_index}
use gopeed_torbox.Extension.Manifest.{Repository}

-- `#`
abbrev pub hash : ℕ
hash = 35

-- `.git`
abbrev pub git_suffix : List ℕ
git_suffix = 46 ∷ 103 ∷ 105 ∷ 116 ∷ []

-- `http://` and `https://`
abbrev pub http : List ℕ
http = 104 ∷ 116 ∷ 116 ∷ 112 ∷ 58 ∷ slash ∷ slash ∷ []

abbrev pub https : List ℕ
https = 104 ∷ 116 ∷ 116 ∷ 112 ∷ 115 ∷ 58 ∷ slash ∷ slash ∷ []

-- `strings.TrimSuffix`, with the suffix first.
unfoldable pub trim_suffix : List ℕ → List ℕ → List ℕ
unfolding has_suffix
trim_suffix t s = if has_suffix t s then take (length s - length t) s else s

-- `path.Split`
unfoldable pub path_split : List ℕ → List ℕ × List ℕ
unfolding last_index
path_split s = elim (last_index slash s) [
  | none ↦ ([], s)
  | some i ↦ (take (i + 1) s, drop (i + 1) s)
]

unfoldable pub without_slash : List ℕ → List ℕ
without_slash [] = []
without_slash (b ∷ bs) = if has_prefix (slash ∷ []) (b ∷ bs) then bs else b ∷ bs

abbrev pub url_with : List ℕ → List ℕ → List ℕ
unfolding trim_suffix without_slash
url_with url [] = url
url_with url (d ∷ ds) = trim_suffix (slash ∷ []) url ++ (hash ∷ without_slash (d ∷ ds))

abbrev pub url_of : List ℕ → List ℕ → List ℕ
unfolding url_with
url_of [] directory = []
url_of (b ∷ bs) directory = url_with (b ∷ bs) directory

-- The empty text is an extension without a repository.
unfoldable pub build_install_url : Option Repository → List ℕ
unfolding url_of
build_install_url none = []
build_install_url (some r) = url_of r.url r.directory

-- What is cloned, and where in it the extension is.
pub record GitSource : Type 0 where
  pub git_url : List ℕ
  pub sub_path : List ℕ

unfoldable pub with_scheme : List ℕ → List ℕ
unfolding has_prefix
with_scheme url =
    if not (has_prefix https url) && not (has_prefix http url) then https ++ url else url

-- The name of the project, and the path behind the first `#`.
unfoldable pub project_parts : List ℕ → List ℕ × List ℕ
unfolding cut_at trim_suffix
project_parts project = elim (cut_at (hash ∷ []) project) [
  | none ↦ (trim_suffix git_suffix project, [])
  | some (name, sub) ↦ (trim_suffix git_suffix name, sub)
]

abbrev pub source_of : List ℕ × List ℕ → GitSource
unfolding project_parts
source_of (parent, project) =
    let (name, sub) = project_parts project in
    record { git_url = parent ++ (name ++ git_suffix); sub_path = sub }

unfoldable pub git_source : List ℕ → GitSource
unfolding with_scheme path_split source_of
git_source url = source_of (path_split (with_scheme url))
