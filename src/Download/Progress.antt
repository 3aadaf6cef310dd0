-- ===== src/Download/Progress.antt =====
-- pkg/download/model.go and downloader.go: the progress of a task, its speed as an average over the last
-- ticks, what the end of a download sets, and what follows it. The division of the average is done in
-- floating point in the source and is a parameter here; sizes and times are natural numbers.
pub mod Window
use Prim.Native.String.{String}
use gopeed_torbox.Base.{
  ℕ, ◌+◌, ◌-◌, ◌/◌, Bool, true, false, not, ◌&&◌, ◌||◌, Option, none, some, List, [], ◌∷◌, ◌++◌,
  ltb, ◌==◌, if◌then◌else◌, length, drop, sum_of,
}

pub record Progress : Type 0 where
  pub used : ℕ
  pub speed : ℕ
  pub downloaded : ℕ
  pub upload_speed : ℕ
  pub uploaded : ℕ

-- The list of the samples after one more; `limit` is `int(5.0 / usedTime)`.
unfoldable pub record_sample : ℕ → List ℕ → ℕ → List ℕ
record_sample limit samples downloaded =
    let more = samples ++ downloaded ∷ [] in if ltb limit (length more) then drop 1 more else more

-- `calcSpeed`; `average` takes the total and the number of the samples.
unfoldable pub calc_speed : (ℕ → ℕ → ℕ) → ℕ → List ℕ → ℕ → List ℕ × ℕ
unfolding record_sample
calc_speed average limit samples downloaded =
    let kept = record_sample limit samples downloaded in
    (kept, average (sum_of (λ n. n) kept) (length kept))

pub record Ticking : Type 0 where
  pub is_running : Bool
  pub uploading : Bool
  pub progress : Progress
  pub speed_arr : List ℕ
  pub upload_speed_arr : List ℕ

-- What a tick reads of the fetcher and of the timer.
pub record Reading : Type 0 where
  pub current : ℕ
  pub current_uploaded : ℕ
  pub used : ℕ

module _ (average : ℕ → ℕ → ℕ) (limit : ℕ) where
  unfoldable pub tick_download : Reading → Ticking → Ticking
  unfolding calc_speed
  tick_download r t =
      let (arr, speed) = calc_speed average limit t.speed_arr (r.current - t.progress.downloaded) in
      if t.is_running
      then record t {
        progress = record t.progress { used = r.used; speed = speed; downloaded = r.current };
        speed_arr = arr;
      }
      else t

  unfoldable pub tick_upload : Reading → Ticking → Ticking
  unfolding calc_speed
  tick_upload r t =
      let (arr, speed) =
        calc_speed average limit t.upload_speed_arr (r.current_uploaded - t.progress.uploaded) in
      if t.uploading
      then record t {
        progress = record t.progress { upload_speed = speed; uploaded = r.current_uploaded };
        upload_speed_arr = arr;
      }
      else t

  -- The body of the loop for one task; `has_fetcher` says that it is not deleted and has a fetcher.
  -- The second component says whether its data are saved.
  unfoldable pub tick : Bool → Reading → Ticking → Ticking × Bool
  unfolding tick_download tick_upload
  tick has_fetcher r t =
      let download_changed = t.is_running && not (r.current == t.progress.downloaded) in
      let upload_changed = t.uploading && not (r.current_uploaded == t.progress.uploaded) in
      if not t.is_running && not t.uploading
      then (t, false)
      else if has_fetcher
      then (tick_upload r (tick_download r t), download_changed || upload_changed)
      else (t, false)

-- The end of a download in `watch`: the size of the resource and the progress.
unfoldable pub done_size : ℕ → ℕ → ℕ
done_size size total_downloaded = if size == 0 then total_downloaded else size

abbrev pub second : ℕ
second = 1000000000

unfoldable pub done_progress : ℕ → ℕ → Progress → Progress
done_progress used size p =
    let seconds = used / second in
    let at_least_one = if seconds == 0 then 1 else seconds in
    record p { used = used; speed = size / at_least_one; downloaded = size }

-- The settings of a download for what follows it; `none` means the global setting.
pub record OptsExtra : Type 0 where
  pub auto_torrent : Option Bool
  pub delete_torrent_after_download : Option Bool
  pub auto_extract : Option Bool

pub record AutoTorrentConfig : Type 0 where
  pub enable : Bool
  pub delete_after_download : Bool

pub record ArchiveConfig : Type 0 where
  pub auto_extract : Bool
  pub delete_after_extract : Bool

-- The explicit setting, else the global one, else false.
abbrev pub setting {ℓ} : {A : Type ℓ} → Option Bool → Option A → (A → Bool) → Bool
setting (some b) c f = b
setting none none f = false
setting none (some c) f = f c

pub data FollowUp : Type 0 where
  create_torrent : String → Bool → FollowUp
  extract : String → FollowUp

abbrev pub when {ℓ} : {A : Type ℓ} → Bool → A → List A
when true a = a ∷ []
when false a = []

-- The end of `watch`, for the path of the file, and whether it is a torrent or an archive.
unfoldable pub follow_ups :
    Option OptsExtra
    → Option AutoTorrentConfig
    → Option ArchiveConfig
    → String
    → Bool
    → Bool
    → List FollowUp
follow_ups none torrents archives path is_torrent is_archive = []
follow_ups (some e) torrents archives path is_torrent is_archive =
    let deletes = setting e.delete_torrent_after_download torrents (λ c. c.delete_after_download) in
    when (setting e.auto_torrent torrents (λ c. c.enable) && is_torrent)
      (create_torrent path deletes)
    ++ when (setting e.auto_extract archives (λ c. c.auto_extract) && is_archive) (extract path)
