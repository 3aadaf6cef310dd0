-- ===== src/Torrent/Seed/Ends.antt =====
-- internal/protocol/bt/fetcher.go: when seeding ends.
use gopeed_torbox.Base.{
  ℕ, ◌+◌, ◌≤◌, ◌<◌, ◌≡◌, Bool, true, false, ◌||◌, none, some, List, [], ◌∷◌, ◌++◌, arith,
  Bool-cases, inl, inr,
}
use gopeed_torbox.Torrent.Seed.{
  SeedConfig, Seeding, Tick, time_ends, limit_ends, seed_tick, do_upload,
}

module _ (cfg : SeedConfig) (last_bytes last_time size : ℕ) (from_upload : Bool) where
  -- The torrent is ready, and seeding counts.
  abbrev pub Counts : Tick → Type 0
  Counts t = (t.is_ready ≡ true) × ((from_upload || t.downloaded) ≡ true)

  tick_keeps-done_time :
      (t : Tick) (s : Seeding) (d : ℕ)
      → s.done_time ≡ some d
      → (seed_tick cfg last_bytes last_time size from_upload t s).0.done_time ≡ some d
  unfolding seed_tick
  tick_keeps-done_time t s d h = ground arith

  tick_ends :
      (t : Tick) (s : Seeding) (d : ℕ)
      → s.done_time ≡ some d
      → Counts t
      → cfg.seed_keep ≡ false
      → 0 < cfg.seed_time
      → d + cfg.seed_time ≤ t.now + last_time
      → d ≤ t.now
      → (seed_tick cfg last_bytes last_time size from_upload t s).1 ≡ true
  unfolding seed_tick limit_ends time_ends
  tick_ends t s d h c keep pos le le2 = ground arith

  tick_starts :
      (t : Tick) (s : Seeding)
      → s.done_time ≡ none
      → Counts t
      → (seed_tick cfg last_bytes last_time size from_upload t s).0.done_time ≡ some t.now
  unfolding seed_tick
  tick_starts t s h c = ground arith

  do_upload-later :
      (ts rest : List Tick) (b : Tick) (s : Seeding) (d : ℕ)
      → s.done_time ≡ some d
      → Counts b
      → cfg.seed_keep ≡ false
      → 0 < cfg.seed_time
      → d + cfg.seed_time ≤ b.now + last_time
      → d ≤ b.now
      → (do_upload cfg last_bytes last_time size from_upload (ts ++ b ∷ rest) s).1 ≡ true
  unfolding do_upload
  do_upload-later [] rest b s d h c keep pos le le2 =
      rw (tick_ends b s d h c keep pos le le2) (tick_ends b s d h c keep pos le le2)
  do_upload-later (t ∷ ts) rest b s d h c keep pos le le2 =
      let next = seed_tick cfg last_bytes last_time size from_upload t s in
      let later =
        do_upload-later ts rest b next.0 d (tick_keeps-done_time t s d h) c keep pos le le2 in
      elim (Bool-cases next.1) [ inl q ↦ rw q q | inr q ↦ rw q later ]

  -- With a limit of the seeding time, and without SeedKeep, seeding ends: once the torrent is
  -- ready and complete, or was started to upload, it is closed at the latest at a round at which
  -- it is so and at which the time since the first such round and the time seeded before reach the
  -- limit.
  pub do_upload-ends :
      (a b : Tick) (ts rest : List Tick) (s : Seeding)
      → s.done_time ≡ none
      → Counts a
      → Counts b
      → cfg.seed_keep ≡ false
      → 0 < cfg.seed_time
      → a.now + cfg.seed_time ≤ b.now + last_time
      → a.now ≤ b.now
      → (do_upload cfg last_bytes last_time size from_upload (a ∷ (ts ++ b ∷ rest)) s).1 ≡ true
  unfolding do_upload
  do_upload-ends a b ts rest s h ca cb keep pos le le2 =
      let next = seed_tick cfg last_bytes last_time size from_upload a s in
      let later =
        do_upload-later ts rest b next.0 a.now (tick_starts a s h ca) cb keep pos le le2 in
      elim (Bool-cases next.1) [ inl q ↦ rw q q | inr q ↦ rw q later ]

  tick_ended :
      (t : Tick) (s : Seeding)
      → (seed_tick cfg last_bytes last_time size from_upload t s).1 ≡ true
      → (limit_ends cfg last_bytes last_time size from_upload
            (seed_tick cfg last_bytes last_time size from_upload t s).0
          ≡ true)
        × Counts t
  unfolding seed_tick limit_ends
  tick_ended t s h = ground arith

  -- The torrent is closed only where it may be: not with SeedKeep, and not before the ratio or the time
  -- that is count_bytes at the end reaches its limit.
  pub do_upload-limit :
      (ts : List Tick) (s : Seeding)
      → (do_upload cfg last_bytes last_time size from_upload ts s).1 ≡ true
      → limit_ends cfg last_bytes last_time size from_upload
          (do_upload cfg last_bytes last_time size from_upload ts s).0
        ≡ true
  unfolding do_upload limit_ends
  do_upload-limit [] s h = cc
  do_upload-limit (t ∷ ts) s h =
      let next = seed_tick cfg last_bytes last_time size from_upload t s in
      elim (Bool-cases next.1) [
        | inl q ↦ rw q (tick_ended t s q).0
        | inr q ↦ rw q (do_upload-limit ts next.0 (rw q at h))
      ]
