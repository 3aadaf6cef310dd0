-- ===== src/Torrent/Tests/Added.antt =====
-- Examples for the client of torrents, their trackers, and names.
use gopeed_torbox.Base.{ℕ, ◌-◌, ◌≡◌, refl, true, false, not, ◌&&◌, ◌||◌, some, List, [], ◌∷◌}
use gopeed_torbox.Download.Resource.{Extra, typed}
use gopeed_torbox.Torrent.Client.{ClientSession, ClientLibrary, Held, nil_client, close}
use gopeed_torbox.Torrent.Client.Again.{then_close, close-again}
use gopeed_torbox.Torrent.Add.{
  Text, announce_list, has_tracker, extra_trackers, parse_schema, parse_data_uri,
}
use gopeed_torbox.Torrent.Add.Announced.{announce_list-has, no_repeats}
use gopeed_torbox.Torrent.Manager.{parse_bep20, parse_name}

-- A client is the number of its torrents.
abbrev clients : ClientLibrary ℕ ℕ ℕ ℕ
clients = record {
  new_client = λ k. some 0;
  count = λ c. c;
  drop_torrent = λ t c. c - 1;
  close_errors = λ c. [];
}

abbrev seeding : ClientSession ℕ
seeding = record { client = some 1; has_context = true; resolving = true }

abbrev fetcher : Held
fetcher = record { dropped = false; upload_done = false }

close-again_example : then_close clients 7 (close clients 7 fetcher seeding) ≡ nil_client
close-again_example = close-again clients 7 1 fetcher seeding refl refl refl refl

abbrev asked : Extra (List Text) ℕ
asked = typed ((1 ∷ []) ∷ (2 ∷ []) ∷ [])

-- The configuration names the second tracker of the request again.
announce_list-has_example :
    (has_tracker (2 ∷ []) (announce_list false asked ((2 ∷ []) ∷ (3 ∷ []) ∷ [])) ≡ (
      not false
      && (has_tracker (2 ∷ []) ((2 ∷ []) ∷ (3 ∷ []) ∷ [])
          || has_tracker (2 ∷ []) (extra_trackers asked))))
    × (no_repeats (announce_list false asked ((2 ∷ []) ∷ (3 ∷ []) ∷ [])) ≡ true)
announce_list-has_example = announce_list-has (2 ∷ []) false asked ((2 ∷ []) ∷ (3 ∷ []) ∷ [])

-- `1.7.1` is filled up to four bytes, and `1.10.12` is longer.
bep20_short : parse_bep20 (49 ∷ 46 ∷ 55 ∷ 46 ∷ 49 ∷ []) ≡ 49 ∷ 55 ∷ 49 ∷ 48 ∷ []
unfolding parse_bep20
bep20_short = refl

bep20_long : parse_bep20 (49 ∷ 46 ∷ 49 ∷ 48 ∷ 46 ∷ 49 ∷ 50 ∷ []) ≡ 49 ∷ 49 ∷ 48 ∷ 49 ∷ 50 ∷ []
unfolding parse_bep20
bep20_long = refl

-- `C:x` has no scheme, `ab:c` has the scheme `ab`.
drive : parse_schema (λ s. s) (67 ∷ 58 ∷ 120 ∷ []) ≡ []
unfolding parse_schema
drive = refl

scheme : parse_schema (λ s. s) (97 ∷ 98 ∷ 58 ∷ 99 ∷ []) ≡ 97 ∷ 98 ∷ []
unfolding parse_schema
scheme = refl

-- `data:a;base64,b`
data_uri :
    parse_data_uri some
      (100 ∷ 97 ∷ 116 ∷ 97 ∷ 58 ∷ 97 ∷ 59 ∷ 98 ∷ 97 ∷ 115 ∷ 101 ∷ 54 ∷ 52 ∷ 44 ∷ 98 ∷ [])
    ≡ (97 ∷ [], 98 ∷ [])
unfolding parse_data_uri
data_uri = refl

-- `urn:btih:a` names `a`.
exact_topic : parse_name (some ([], 117 ∷ 58 ∷ 98 ∷ 58 ∷ 97 ∷ [])) ≡ 97 ∷ []
unfolding parse_name
exact_topic = refl
