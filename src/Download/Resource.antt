-- ===== src/Download/Resource.antt =====
-- pkg/base/model.go, internal/fetcher/fetcher.go and the downloader's choice of a protocol: resources and
-- their files, requests, the extra parts of requests, paths, and the URLs that a protocol accepts.
pub mod Sizes
use Prim.Native.String.{String, ◌++◌}
use text.Mathlib.Text.{◌==◌ as str_eq}
use gopeed_torbox.Base.{
  ℕ, zero, suc, ◌+◌, Bool, true, false, not, ◌&&◌, ◌||◌, Option, none, some, List, [], ◌∷◌, ◌==◌,
  if◌then◌else◌, length,
}

pub record FileInfo : Type 0 where
  pub name : String
  pub path : String
  pub size : ℕ

pub record Resource : Type 0 where
  pub name : String
  pub size : ℕ
  pub range : Bool
  pub files : List FileInfo

-- Whether there is an error.
unfoldable pub validate_request : String → Bool
validate_request url = str_eq url ""

unfoldable pub some_unnamed : List FileInfo → Bool
some_unnamed [] = false
some_unnamed (f ∷ fs) = str_eq f.name "" || some_unnamed fs

abbrev pub no_files {ℓ} : {A : Type ℓ} → List A → Bool
no_files [] = true
no_files (x ∷ xs) = false

unfoldable pub validate_resource : Resource → Bool
unfolding some_unnamed
validate_resource r = str_eq r.name "" || (no_files r.files || some_unnamed r.files)

unfoldable pub contains : List ℕ → ℕ → Bool
contains [] i = false
contains (j ∷ js) i = j == i || contains js i

-- The loop of `CalcSize`, from the index `i` on.
unfoldable pub size_from : List ℕ → ℕ → List FileInfo → ℕ
unfolding contains
size_from select i [] = 0
size_from select i (f ∷ fs) =
    (if no_files select || contains select i then f.size else 0) + size_from select (suc i) fs

unfoldable pub calc_size : List ℕ → Resource → Resource
unfolding size_from
calc_size select r = record r { size = size_from select 0 r.files }

unfoldable pub indices_from : ℕ → ℕ → List ℕ
indices_from i zero = []
indices_from i (suc n) = i ∷ indices_from (suc i) n

unfoldable pub init_select_files : ℕ → List ℕ → List ℕ
unfolding indices_from
init_select_files n select = if no_files select then indices_from 0 n else select

-- `Extra`: nil, a value of the protocol's type, or one that was read from JSON.
pub data Extra (E J : Type 0) : Type 0 where
  nil : Extra E J
  typed : E → Extra E J
  json : J → Extra E J

-- `ParseReqExtra` and `ParseOptExtra`: the extra part after it, and whether there is no error.
unfoldable pub parse_extra : {E J : Type 0} → (J → Option E) → Extra E J → Extra E J × Bool
parse_extra map_to_struct nil = (nil, true)
parse_extra map_to_struct (typed e) = (typed e, true)
parse_extra map_to_struct (json j) = elim (map_to_struct j) [
  | none ↦ (json j, false)
  | some e ↦ (typed e, true)
]

-- The paths of a resource's files, for a custom name and a directory. `files` is not empty in
-- `single_filepath`; an index out of range would be a panic, here `none`.
module _ (join : String → String → String) (opts_name opts_path : String) where
  unfoldable pub folder_path : Resource → String
  folder_path r = join opts_path (if str_eq opts_name "" then r.name else opts_name)

  abbrev pub first_path : List FileInfo → Option String
  first_path [] = none
  first_path (f ∷ fs) =
      some (join (join opts_path f.path) (if str_eq opts_name "" then f.name else opts_name))

  unfoldable pub single_filepath : Resource → Option String
  single_filepath r = first_path r.files

  unfoldable pub root_dir_path : Resource → String
  unfolding folder_path
  root_dir_path r = if str_eq r.name "" then opts_path else folder_path r

-- `Progress.TotalDownloaded`
unfoldable pub total_progress : List ℕ → ℕ
total_progress [] = 0
total_progress (n ∷ ns) = n + total_progress ns

pub data FilterType : Type 0 where
  url file base64 : FilterType

pub record SchemeFilter : Type 0 where
  pub type : FilterType
  pub pattern : String

-- `to_upper`, `has_prefix` and `has_suffix` are those of `strings`.
module _ (to_upper : String → String) (has_prefix : String → String → Bool)
    (has_suffix : String → String → Bool) where
  abbrev pub match_upper : FilterType → String → String → Bool
  match_upper url uri pattern = has_prefix uri (pattern ++ ":")
  match_upper file uri pattern = has_suffix uri ("." ++ pattern)
  match_upper base64 uri pattern = has_prefix uri ("DATA:" ++ (pattern ++ ";BASE64,"))

  unfoldable pub match : SchemeFilter → String → Bool
  match f uri = match_upper f.type (to_upper uri) (to_upper f.pattern)

  unfoldable pub match_any : List SchemeFilter → String → Bool
  unfolding match
  match_any [] uri = false
  match_any (f ∷ fs) uri = match f uri || match_any fs uri

  -- `parseFm`: the first fetcher manager with a filter for the URL. `none` is ErrUnSupportedProtocol.
  unfoldable pub parse_fm : {M : Type 0} → (M → List SchemeFilter) → List M → String → Option M
  unfolding match_any
  parse_fm filters [] uri = none
  parse_fm filters (m ∷ ms) uri =
      let rest = parse_fm filters ms uri in if match_any (filters m) uri then some m else rest

-- The filters of internal/protocol/http/fetcher_manager.go.
abbrev pub http_filters : List SchemeFilter
http_filters =
    record { type = url; pattern = "HTTP" } ∷ record { type = url; pattern = "HTTPS" } ∷ []
