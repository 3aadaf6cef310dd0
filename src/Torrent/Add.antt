-- ===== src/Torrent/Add.antt =====
-- internal/protocol/bt/fetcher.go, with ParseSchema and ParseDataUri of pkg/util/url.go: how a torrent is added
-- to the client, and which trackers it announces. A text is the list of its bytes.
pub mod Announced
use gopeed_torbox.Base.{
  ℕ, zero, suc, Bool, true, false, not, ◌&&◌, ◌||◌, Option, none, some, List, [], ◌∷◌, ◌++◌, ◌==◌,
  if◌then◌else◌, length, drop, bytes_eq,
}
use gopeed_torbox.Download.Resource.{Extra, nil, typed, json, parse_extra}
use gopeed_torbox.Util.Match.{has_prefix, cut_at}

abbrev pub Text : Type 0
Text = List ℕ

-- `:`
abbrev pub scheme_end : Text
scheme_end = 58 ∷ []

-- `ParseSchema`; a scheme_end behind one byte is that of a drive.
unfoldable pub parse_schema : (Text → Text) → Text → Text
unfolding cut_at
parse_schema to_upper url = elim (cut_at scheme_end url) [
  | none ↦ []
  | some (schema, rest) ↦ if length schema == 1 then [] else to_upper schema
]

-- `data:` and `;base64,`
abbrev pub data_prefix : Text
data_prefix = 100 ∷ 97 ∷ 116 ∷ 97 ∷ 58 ∷ []

abbrev pub base64_mark : Text
base64_mark = 59 ∷ 98 ∷ 97 ∷ 115 ∷ 101 ∷ 54 ∷ 52 ∷ 44 ∷ []

abbrev pub newline : ℕ
newline = 10

unfoldable pub one_line : Text → Bool
one_line [] = true
one_line (c ∷ cs) = not (c == newline) && one_line cs

-- What stands before and after the last mark: the first group of the expression is the longest one.
unfoldable pub cut_last : Text → Text → Option (Text × Text)
unfolding has_prefix
cut_last mark [] = none
cut_last mark (c ∷ cs) =
    let rest = cut_last mark cs in
    let here = if has_prefix mark (c ∷ cs) then some ([], drop (length mark) (c ∷ cs)) else none in
    elim rest [ none ↦ here | some (b, a) ↦ some (c ∷ b, a) ]

-- `ParseDataUri`; `decode` is that of base64. The nil data are empty.
unfoldable pub parse_data_uri : (Text → Option Text) → Text → Text × Text
unfolding cut_last one_line
parse_data_uri decode uri =
    elim (if has_prefix data_prefix uri && one_line uri
      then cut_last base64_mark (drop 5 uri)
      else none) [
        | none ↦ ([], [])
        | some (mime, encoded) ↦ elim (decode encoded) [
          | none ↦ ([], [])
          | some bytes ↦ (mime, bytes)
        ]
      ]

-- What `metainfo.Load` makes of a file: nothing, or its information, with or without the error that
-- more follows.
pub data Loaded (I : Type 0) : Type 0 where
  broken : Loaded I
  loaded trailing : I → Loaded I

-- The torrent library, the files, and URLs. `private_flag` is that of `UnmarshalInfo`, which can fail, and
-- `url_path` the path of a parsed URL; `none` is an error.
pub record TorrentLibrary (I S T : Type 0) : Type 0 where
  pub to_upper : Text → Text
  pub url_path : Text → Option Text
  pub open_file : Text → Option Text
  pub decode : Text → Option Text
  pub spec_from_magnet_uri : Text → Option S
  pub load : Text → Loaded I
  pub private_flag : I → Option Bool
  pub spec_from_meta_info : I → Option S
  pub add_torrent_spec : S → Option T

-- Which step of `addTorrent` fails.
pub data AddFailure : Type 0 where
  bad_extra no_client bad_magnet cannot_open bad_torrent bad_info bad_spec not_added : AddFailure

-- The bytes of a torrent file, an error, or a panic.
pub data Content : Type 0 where
  panics unopened : Content
  content : Text → Content

-- The specification, and whether the torrent is private.
pub data Spec (S : Type 0) : Type 0 where
  panicked : Spec S
  failed : AddFailure → Spec S
  spec : S → Bool → Spec S

-- `MAGNET`, `FILE`, `DATA`
abbrev pub magnet_schema : Text
magnet_schema = 77 ∷ 65 ∷ 71 ∷ 78 ∷ 69 ∷ 84 ∷ []

abbrev pub file_schema : Text
file_schema = 70 ∷ 73 ∷ 76 ∷ 69 ∷ []

abbrev pub data_schema : Text
data_schema = 68 ∷ 65 ∷ 84 ∷ 65 ∷ []

abbrev pub opened : Option Text → Content
opened none = unopened
opened (some bytes) = content bytes

-- The trackers of a map: a tracker that is there is not added again. The order is that of the map.
unfoldable pub has_tracker : Text → List Text → Bool
has_tracker t [] = false
has_tracker t (u ∷ us) = bytes_eq u t || has_tracker t us

unfoldable pub put_trackers : List Text → List Text → List Text
unfolding has_tracker
put_trackers [] set = set
put_trackers (t ∷ ts) set = put_trackers ts (if has_tracker t set then set else t ∷ set)

abbrev pub extra_trackers : {J : Type 0} → Extra (List Text) J → List Text
extra_trackers nil = []
extra_trackers (typed ts) = ts
extra_trackers (json j) = []

-- The trackers that are added to a torrent.
unfoldable pub announce_list : {J : Type 0} → Bool → Extra (List Text) J → List Text → List Text
unfolding put_trackers
announce_list private extra config =
    if private then [] else put_trackers config (put_trackers (extra_trackers extra) [])

module _ {I S T : Type 0} (lib : TorrentLibrary I S T) where
  -- `fileUrl.Path[1:]` panics for a nil URL and for an empty path.
  abbrev pub open_path : Option Text → Content
  open_path none = panics
  open_path (some []) = panics
  open_path (some (c ∷ path)) = opened (lib.open_file path)

  unfoldable pub read_content : Text → Text → Content
  unfolding parse_data_uri bytes_eq
  read_content schema url =
      if bytes_eq schema file_schema
      then open_path (lib.url_path url)
      else if bytes_eq schema data_schema
      then content (parse_data_uri lib.decode url).1
      else opened (lib.open_file url)

  abbrev pub spec_or : AddFailure → Bool → Option S → Spec S
  spec_or e private none = failed e
  spec_or e private (some s) = spec s private

  unfoldable pub spec_of_info : I → Spec S
  spec_of_info i = elim (lib.private_flag i) [
    | none ↦ failed bad_info
    | some private ↦ spec_or bad_spec private (lib.spec_from_meta_info i)
  ]

  abbrev pub spec_of_loaded : Loaded I → Spec S
  unfolding spec_of_info
  spec_of_loaded broken = failed bad_torrent
  spec_of_loaded (loaded i) = spec_of_info i
  spec_of_loaded (trailing i) = spec_of_info i

  abbrev pub spec_of_content : Content → Spec S
  unfolding spec_of_loaded
  spec_of_content panics = panicked
  spec_of_content unopened = failed cannot_open
  spec_of_content (content bytes) = spec_of_loaded (lib.load bytes)

  -- The specification for a URL; a magnet link is never private.
  unfoldable pub torrent_spec : Text → Spec S
  unfolding parse_schema read_content spec_of_content
  torrent_spec url =
      let schema = parse_schema lib.to_upper url in
      if bytes_eq schema magnet_schema
      then spec_or bad_magnet false (lib.spec_from_magnet_uri url)
      else spec_of_content (read_content schema url)
