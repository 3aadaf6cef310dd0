-- ===== src/Torrent/Manager.antt =====
-- internal/protocol/bt/fetcher.go: `addTorrent` as a whole, the resource of a torrent, and the names of the fetcher
-- manager. A text is the list of its bytes.
use Prim.Native.String.{String}
use text.Mathlib.Text.{◌==◌ as str_eq}
use gopeed_torbox.Base.{
  ℕ, zero, suc, ◌-◌, Bool, true, false, Option, none, some, List, [], ◌∷◌, ◌++◌, ◌==◌, map, ltb,
  if◌then◌else◌, length,
}
use gopeed_torbox.Download.Resource.{
  Extra, FileInfo, Resource, SchemeFilter, url, file, base64, parse_extra, calc_size,
  init_select_files,
}
use gopeed_torbox.Torrent.Add.{
  Text, TorrentLibrary, Spec, panicked, failed, spec, AddFailure, bad_extra, no_client, not_added,
  torrent_spec, announce_list,
}
use gopeed_torbox.Torrent.Client.{ClientSession, ClientLibrary, init_client}

-- How `addTorrent` ends: with an error, a panic, or a torrent, the trackers that were added to it, and
-- the request with its parsed extra part.
pub data AddResult (T J : Type 0) : Type 0 where
  error : AddFailure → AddResult T J
  panics : AddResult T J
  added : T → List Text → Extra (List Text) J → AddResult T J

module _ {I S T J C E K : Type 0} (lib : TorrentLibrary I S T) (clients : ClientLibrary C T E K)
    (map_to_struct : J → Option (List Text)) where
  unfoldable pub add_spec : Extra (List Text) J → List Text → Spec S → AddResult T J
  unfolding announce_list
  add_spec extra config panicked = panics
  add_spec extra config (failed e) = error e
  add_spec extra config (spec s private) = elim (lib.add_torrent_spec s) [
    | none ↦ error not_added
    | some t ↦ added t (announce_list private extra config) extra
  ]

  abbrev pub add_with_client :
      Text
      → Extra (List Text) J
      → List Text
      → ClientSession C × Bool
      → AddResult T J × ClientSession C
  unfolding torrent_spec add_spec
  add_with_client u extra config (s, false) = (error no_client, s)
  add_with_client u extra config (s, true) = (add_spec extra config (torrent_spec lib u), s)

  abbrev pub add_parsed :
      Text
      → List Text
      → K
      → ClientSession C
      → Extra (List Text) J × Bool
      → AddResult T J × ClientSession C
  unfolding init_client add_with_client
  add_parsed u trackers k s (extra, false) = (error bad_extra, s)
  add_parsed u trackers k s (extra, true) =
      add_with_client u extra trackers (init_client clients k s)

  -- `addTorrent`, for a URL, the extra part of its request, the configured trackers and the client's
  -- configuration; it waits for the information of the torrent.
  unfoldable pub add_torrent :
      Text → Extra (List Text) J → List Text → K → ClientSession C → AddResult T J × ClientSession C
  unfolding add_parsed parse_extra
  add_torrent u extra trackers k s = add_parsed u trackers k s (parse_extra map_to_struct extra)

-- A file of a torrent: the base name and the directory of its path, and its length.
pub record TorrentFile : Type 0 where
  pub base_name : String
  pub dir : String
  pub length : ℕ

-- What the library says of a torrent: its name, the length of its one file, which is 0 for a
-- directory, and its files.
pub record TorrentInfo : Type 0 where
  pub name : String
  pub single_length : ℕ
  pub files : List TorrentFile

-- `util.Dir`
abbrev pub parent_dir : String → String
parent_dir dir = if str_eq dir "." then "" else dir

abbrev pub file_info : TorrentFile → FileInfo
file_info f = record { name = f.base_name; path = parent_dir f.dir; size = f.length }

-- The resource that `updateRes` makes.
unfoldable pub torrent_resource : TorrentInfo → Resource
unfolding calc_size
torrent_resource i = calc_size [] (record {
  name = if i.single_length == 0 then i.name else "";
  size = 0;
  range = true;
  files = map file_info i.files;
})

-- `updateRes`: the resource and the selection of the options, `none` without options.
unfoldable pub update_res : TorrentInfo → Option (List ℕ) → Resource × Option (List ℕ)
unfolding torrent_resource init_select_files
update_res i none = (torrent_resource i, none)
update_res i (some select) = (torrent_resource i, some (init_select_files (length i.files) select))

-- The filters of the fetcher manager.
abbrev pub torrent_filters : List SchemeFilter
torrent_filters =
    record { type = url; pattern = "MAGNET" }
    ∷ record { type = file; pattern = "TORRENT" }
    ∷ record { type = base64; pattern = "APPLICATION/X-BITTORRENT" }
    ∷ []

-- The part behind the last scheme_end.
unfoldable pub behind_colon : Text → Text → Text
behind_colon kept [] = kept
behind_colon kept (c ∷ cs) = behind_colon (if c == 58 then cs else kept) cs

abbrev pub xt_name : Text → Text
unfolding behind_colon
xt_name [] = []
xt_name (c ∷ cs) = behind_colon (c ∷ cs) (c ∷ cs)

abbrev pub dn_name : Text → Text → Text
unfolding xt_name
dn_name [] xt = xt_name xt
dn_name (c ∷ cs) xt = c ∷ cs

-- `ParseName`, for the parameters `dn` and `xt` of the URL; `none` is a URL that cannot be parsed.
unfoldable pub parse_name : Option (Text × Text) → Text
unfolding dn_name
parse_name none = []
parse_name (some (dn, xt)) = dn_name dn xt

abbrev pub digit_zero : ℕ
digit_zero = 48

unfoldable pub zeros_text : ℕ → Text
zeros_text zero = []
zeros_text (suc n) = digit_zero ∷ zeros_text n

-- `strings.ReplaceAll(version, ".", "")`
unfoldable pub without_dots : Text → Text
without_dots [] = []
without_dots (c ∷ cs) = let rest = without_dots cs in if c == 46 then rest else c ∷ rest

-- `parseBep20`
unfoldable pub parse_bep20 : Text → Text
unfolding without_dots zeros_text
parse_bep20 version =
    let s = without_dots version in if ltb (length s) 4 then s ++ zeros_text (4 - length s) else s
