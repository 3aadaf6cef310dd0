-- ===== src/Torrent/Seed.antt =====
-- internal/protocol/bt/fetcher.go: `doUpload`, the seeding of a torrent, and what it counts. A tick is a round
-- of the loop that is not the end of the torrent. Times are in seconds and do not go back; the
-- ratio is computed in floating point, and its test is a parameter.
pub mod Ends
use gopeed_torbox.Base.{
  ℕ, ◌+◌, ◌-◌, Bool, true, false, not, ◌&&◌, ◌||◌, Option, none, some, List, [], ◌∷◌, if◌then◌else◌,
  ltb, leb,
}

-- `ratio_reached` is whether a ratio above 0 is configured and the seeded bytes have reached it for the
-- size of the resource.
pub record SeedConfig : Type 0 where
  pub seed_keep : Bool
  pub ratio_reached : ℕ → ℕ → Bool
  pub seed_time : ℕ

-- `done_time` is 0 until the torrent is complete, here `none`.
pub record Seeding : Type 0 where
  pub seed_bytes : ℕ
  pub seed_time : ℕ
  pub done_time : Option ℕ

-- Whether the torrent is ready, the bytes written to peers, whether the download is complete, and the time.
pub record Tick : Type 0 where
  pub is_ready : Bool
  pub written : ℕ
  pub downloaded : Bool
  pub now : ℕ

abbrev pub time_or : ℕ → Option ℕ → ℕ
time_or now none = now
time_or now (some t) = t

-- `lastData` is what was seeded before, and `size` that of the resource, 0 without one.
module _ (cfg : SeedConfig) (last_bytes last_time size : ℕ) (from_upload : Bool) where
  -- `seedRadio() >= SeedRatio`, which is not so for an empty resource.
  unfoldable pub ratio_ends : Seeding → Bool
  ratio_ends s = ltb 0 size && cfg.ratio_reached s.seed_bytes size

  unfoldable pub time_ends : Seeding → Bool
  time_ends s = ltb 0 cfg.seed_time && leb cfg.seed_time s.seed_time

  abbrev pub count_bytes : Tick → Seeding → Seeding
  count_bytes t s = record s { seed_bytes = last_bytes + t.written }

  abbrev pub timed : Tick → Seeding → Seeding
  timed t s =
      let done = time_or t.now s.done_time in
      record s { seed_time = last_time + (t.now - done); done_time = some done }

  -- Whether the torrent is to be closed.
  abbrev pub limit_ends : Seeding → Bool
  unfolding ratio_ends time_ends
  limit_ends s = not cfg.seed_keep && (ratio_ends s || time_ends s)

  unfoldable pub seed_tick : Tick → Seeding → Seeding × Bool
  unfolding limit_ends
  seed_tick t s =
      if not t.is_ready
      then (s, false)
      else if not from_upload && not t.downloaded
      then (count_bytes t s, false)
      else (timed t (count_bytes t s), limit_ends (timed t (count_bytes t s)))

  -- The loop; it ends when the torrent is closed.
  unfoldable pub do_upload : List Tick → Seeding → Seeding × Bool
  unfolding seed_tick
  do_upload [] s = (s, false)
  do_upload (t ∷ ts) s =
      let next = seed_tick t s in let rest = do_upload ts next.0 in if next.1 then next else rest
