-- ===== src/Torrent/Fetcher.antt =====
-- internal/protocol/bt/fetcher.go: which files of a torrent are downloaded, and how far they are. The torrent
-- library is a parameter. An index out of range is a panic, here `none`.
pub mod Chosen
use gopeed_torbox.Base.{
  ℕ, zero, suc, ◌+◌, ◌-◌, ◌≤◌, ◌<◌, ◌≡◌, Bool, true, false, not, ◌&&◌, ◌||◌, Option, none, some,
  List, [], ◌∷◌, ◌++◌, map, if◌then◌else◌, ltb, leb, ◌==◌, length, get_elem?,
}
use gopeed_torbox.Download.Resource.{Resource, contains, calc_size, indices_from, no_files}

-- `negsuc n` is -(n + 1).
pub data ℤ : Type 0 where
  pos : ℕ → ℤ
  negsuc : ℕ → ℤ

-- The torrents of the library by the files that are to be downloaded: `Download`, `DownloadAll` and
-- `CancelPieces` for all pieces change which those are, and not the number of files. Which files are
-- still to be downloaded after `CancelPieces` is left open.
pub record Torrents (T : Type 0) : Type 0 where
  pub count : T → ℕ
  pub wants : T → ℕ → Bool
  pub download : ℕ → T → T
  pub download_all : T → T
  pub cancel_all : T → T
  pub count-download : (i : ℕ) (t : T) → count (download i t) ≡ count t
  pub count-download_all : (t : T) → count (download_all t) ≡ count t
  pub count-cancel_all : (t : T) → count (cancel_all t) ≡ count t
  pub wants-download : (i j : ℕ) (t : T) → wants (download i t) j ≡ ((i == j) || wants t j)
  pub wants-download_all : (j : ℕ) (t : T) → j < count t → wants (download_all t) j ≡ true

-- `torrent` is nil until a torrent is added, and so is `progress` until the first start.
pub record Fetcher (T : Type 0) : Type 0 where
  pub torrent : Option T
  pub select_files : List ℕ
  pub res : Option Resource
  pub progress : Option (List ℕ)

abbrev pub zeros : List ℕ → List ℕ
zeros [] = []
zeros (i ∷ is) = 0 ∷ zeros is

-- The indices that are kept by `Patch`.
unfoldable pub valid_select_files : ℕ → List ℤ → List ℕ
valid_select_files n [] = []
valid_select_files n (negsuc i ∷ is) = valid_select_files n is
valid_select_files n (pos i ∷ is) =
    let rest = valid_select_files n is in if ltb i n then i ∷ rest else rest

abbrev pub file_count : Option Resource → ℕ
file_count none = 0
file_count (some r) = length r.files

-- Each of the indices is below the number.
unfoldable pub all_below : ℕ → List ℕ → Bool
all_below n [] = true
all_below n (i ∷ is) = ltb i n && all_below n is

module _ {T : Type 0} (lib : Torrents T) where
  unfoldable pub download_each : List ℕ → T → T
  download_each [] t = t
  download_each (i ∷ is) t = download_each is (lib.download i t)

  -- `files[selectIndex]` panics for an index out of range.
  unfoldable pub download_selected : List ℕ → T → Option T
  unfolding download_each all_below
  download_selected select t =
      if length select == lib.count t
      then some (lib.download_all t)
      else if all_below (lib.count t) select
      then some (download_each select t)
      else none

  abbrev pub start_progress : ℕ → Fetcher T → Fetcher T
  unfolding indices_from
  start_progress n f = elim f.progress [
    | some p ↦ f
    | none ↦
        let select = if no_files f.select_files then indices_from 0 n else f.select_files in
        record f { select_files = select; progress = some (zeros select) }
  ]

  abbrev pub with_torrent : Fetcher T → Option T → Option (Fetcher T)
  with_torrent f none = none
  with_torrent f (some t) = some (record f { torrent = some t })

  -- `Start`, once the torrent is there.
  unfoldable pub start : T → Fetcher T → Option (Fetcher T)
  unfolding start_progress download_selected
  start t f =
      let g = start_progress (lib.count t) f in with_torrent g (download_selected g.select_files t)

  abbrev pub patched_torrent : List ℕ → Option T → Option (Option T)
  unfolding download_selected
  patched_torrent select none = some none
  patched_torrent select (some t) = elim (download_selected select (lib.cancel_all t)) [
    | none ↦ none
    | some u ↦ some (some u)
  ]

  abbrev pub patched_res : List ℕ → Option Resource → Option Resource
  unfolding calc_size
  patched_res select none = none
  patched_res select (some r) = some (calc_size select r)

  abbrev pub patched_with : List ℕ → Fetcher T → Option (Option T) → Option (Fetcher T)
  unfolding patched_res
  patched_with select f none = none
  patched_with select f (some t) = some (record {
    torrent = t;
    select_files = select;
    res = patched_res select f.res;
    progress = some (zeros select);
  })

  -- `Patch`; `none` is a nil list of files, or no options.
  unfoldable pub patch : Option (List ℤ) → Fetcher T → Option (Fetcher T)
  unfolding valid_select_files patched_torrent patched_with
  patch none f = some f
  patch (some is) f =
      let select = valid_select_files (file_count f.res) is in
      patched_with select f (patched_torrent select f.torrent)

  -- The loop of `Progress`, with the bytes completed by file: as many entries as there were.
  unfoldable pub refresh_progress : (ℕ → Option ℕ) → List ℕ → List ℕ → Option (List ℕ)
  refresh_progress completed [] select = some []
  refresh_progress completed (p ∷ ps) [] = none
  refresh_progress completed (p ∷ ps) (i ∷ is) = elim (completed i) [
    | none ↦ none
    | some n ↦ elim (refresh_progress completed ps is) [ none ↦ none | some ns ↦ some (n ∷ ns) ]
  ]

  -- `Progress`; a nil progress has no entries. `completed` is `none` for an index out of range.
  unfoldable pub update_progress : (ℕ → Option ℕ) → Fetcher T → Option (Fetcher T)
  unfolding refresh_progress
  update_progress completed f = elim f.progress [
    | none ↦ some f
    | some p ↦ elim (refresh_progress completed p f.select_files) [
      | none ↦ none
      | some q ↦ some (record f { progress = some q })
    ]
  ]

-- `isDone`, for the bytes completed and the length of each file.
unfoldable pub is_done : (ℕ → ℕ) → (ℕ → ℕ) → List ℕ → Bool
is_done completed size [] = true
is_done completed size (i ∷ is) = not (ltb (completed i) (size i)) && is_done completed size is

-- Whether `Wait` returns at a check, and the files that it removes then.
unfoldable pub wait_returns : (ℕ → ℕ) → (ℕ → ℕ) → Bool → List ℕ → Bool
unfolding is_done
wait_returns completed size ready select =
    ready && (not (no_files select) && is_done completed size select)

unfoldable pub unselected_from : List ℕ → ℕ → ℕ → List ℕ
unfolding contains
unselected_from select i zero = []
unselected_from select i (suc n) =
    let rest = unselected_from select (suc i) n in if contains select i then rest else i ∷ rest
