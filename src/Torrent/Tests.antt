-- ===== src/Torrent/Tests.antt =====
-- Examples for torrents.
mod Added
use gopeed_torbox.Base.{
  ℕ, ◌<◌, ◌≡◌, refl, Bool, true, false, ◌||◌, ◌&&◌, map, none, some, [], ◌∷◌, ◌++◌, arith, ◌==◌,
  ltb,
}
use gopeed_torbox.Download.Resource.{FileInfo, contains}
use gopeed_torbox.Torrent.Fetcher.{pos, negsuc, Torrents, Fetcher, patch, valid_select_files, zeros}
use gopeed_torbox.Torrent.Fetcher.Chosen.{given, too_many, patch-wants}
use gopeed_torbox.Torrent.Seed.{SeedConfig, Tick, do_upload}
use gopeed_torbox.Torrent.Seed.Ends.{do_upload-ends}

-- The number of files, and which of them are to be downloaded.
pub record Files : Type 0 where
  pub number : ℕ
  pub wanted : ℕ → Bool

below : (j n : ℕ) → j < n → (ltb j n || false) ≡ true
below j n h = ground arith

-- A file that was to be downloaded still is after the pieces are cancelled.
abbrev torrents : Torrents Files
torrents = record {
  count = λ t. t.number;
  wants = λ t j. t.wanted j;
  download = λ i t. record { number = t.number; wanted = λ j. (i == j) || t.wanted j };
  download_all = λ t. record { number = t.number; wanted = λ j. ltb j t.number || false };
  cancel_all = λ t. t;
  count-download = λ i t. refl;
  count-download_all = λ t. refl;
  count-cancel_all = λ t. refl;
  wants-download = λ i j t. refl;
  wants-download_all = λ j t h. below j t.number h;
}

abbrev file : FileInfo
file = record { name = "a"; path = ""; size = 3 }

abbrev both : Files
both = record { number = 2; wanted = λ j. true }

-- Two files, which are both downloaded.
abbrev fetcher : Fetcher Files
fetcher = record {
  torrent = some both;
  select_files = 0 ∷ 1 ∷ [];
  res = some (record { name = "r"; size = 6; range = true; files = file ∷ file ∷ [] });
  progress = some (3 ∷ 1 ∷ []);
}

-- Of 1, -1 and 7 the first is valid.
patch-wants_example :
    (g : Fetcher Files) × (u : Files) × (patch torrents
        (some (pos 1 ∷ negsuc 0 ∷ pos 7 ∷ []))
        fetcher
      ≡ some g)
    × (g.torrent ≡ some u)
    × ((j : ℕ) → contains g.select_files j ≡ (ltb j 2 && given (pos 1 ∷ negsuc 0 ∷ pos 7 ∷ []) j))
    × (g.progress ≡ some (map (λ i. 0) g.select_files))
    × ((j : ℕ)
        → j < 2
        → u.wanted j ≡ ((contains g.select_files j || too_many g.select_files 2) || both.wanted j))
unfolding valid_select_files
patch-wants_example = patch-wants torrents (pos 1 ∷ negsuc 0 ∷ pos 7 ∷ []) fetcher both refl refl

abbrev ten_seconds : SeedConfig
ten_seconds = record { seed_keep = false; ratio_reached = λ b n. false; seed_time = 10 }

abbrev at_time : ℕ → Tick
at_time n = record { is_ready = true; written = n; downloaded = true; now = n }

-- Four seconds were seeded before.
do_upload-ends_example :
    (do_upload ten_seconds 0 4 6 false
      (at_time 100 ∷ (at_time 103 ∷ [] ++ at_time 106 ∷ []))
      (record { seed_bytes = 0; seed_time = 4; done_time = none })).1
    ≡ true
do_upload-ends_example =
    do_upload-ends ten_seconds 0 4 6 false (at_time 100) (at_time 106) (at_time 103 ∷ []) []
      (record { seed_bytes = 0; seed_time = 4; done_time = none }) refl (refl, refl) (refl, refl)
      refl (omega arith) (omega arith) (omega arith)
