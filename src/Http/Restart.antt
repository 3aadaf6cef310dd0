-- ===== src/Http/Restart.antt =====
-- internal/protocol/http/fetcher_manager.go and the tags of `connection` in fetcher.go: what of a
-- fetcher is saved, and the download that goes on from it after the program was restarted. A saved
-- record shows the connections of one moment here; the source writes them one after another, without
-- the lock of the connections.
use gopeed_torbox.Base.{
  ℕ, ◌≡◌, refl, ◌∙◌, inl, inr, true, false, ◌||◌, Option, none, some, List, map, arith,
  get_elem?-map_cases, get_elem?-map, get_elem?-map-none, sum_of-map, Bool-cases,
}
use gopeed_torbox.Http.Chunk.{Connection, is_completed}
use gopeed_torbox.Http.Resume.{skips, resume, resumed_local, resumed, share-resume, completed-done}
use gopeed_torbox.Http.Transfer.{Local, World, Reach, resting}
use gopeed_torbox.Http.Transfer.Invariant.{share, Fits, Inv}
use gopeed_torbox.Http.Transfer.Kept.{Reach-Good}

-- A connection written as JSON and read again: the fields that are not exported are lost.
unfoldable pub persisted : Connection → Connection
persisted c = record c { failed = false; retry_times = 0; last_err = none; speed = 0 }

-- The world in which the goroutines start from saved connections, over the file as it is.
unfoldable pub restarted : List Connection → (ℕ → Option ℕ) → World
unfolding persisted resumed
restarted conns file =
    resumed (record { conns = map persisted conns; locals = λ _. resting; file = file })

restarted_one : Connection → Connection
restarted_one c = resume (persisted c)

one-chunk :
    (c : Connection)
    → ((restarted_one c).chunk ≡ c.chunk) × ((restarted_one c).downloaded ≡ c.downloaded)
unfolding restarted_one resume persisted
one-chunk c = (ground arith, ground arith)

share-persisted : (c : Connection) → share (persisted c) ≡ share c
unfolding persisted
share-persisted c = refl

skips-persisted : (c : Connection) → skips (persisted c) ≡ c.completed || is_completed c.state
unfolding skips persisted
skips-persisted c = ground arith

module _ (remote : ℕ → ℕ) (size : ℕ) where
  restart-Fits :
      (old now : ℕ → Option ℕ) (c : Connection) (l : Local)
      → Fits remote size old c l
      → Fits remote size now (restarted_one c) (resumed_local (some (persisted c)))
  unfolding restarted_one resume persisted
  restart-Fits old now c l f = elim (Bool-cases (skips (persisted c))) [
    | inl e ↦
        let over : c.completed ≡ true = ground (arith, skips-persisted c, f.agree) in
        rw e (record {
          within = f.within;
          below = f.below;
          agree = f.agree;
          at = inl (over, completed-done remote size old c l f.at over);
        })
    | inr e ↦ rw e (record {
      within = f.within;
      below = f.below;
      agree = λ q. cc;
      at = ground (arith, skips-persisted c);
    })
  ]

  -- Save the connections at any moment of a download with the invariant, let the download go on in
  -- any way, and end the program: the download that starts from the saved connections, over the file
  -- as it is then, has the invariant.
  pub restarted-Inv :
      {w v : World}
      → Reach remote w v
      → Inv remote size w
      → Inv remote size (restarted w.conns v.file)
  unfolding restarted resumed resume restarted_one
  restarted-Inv {w} {v} run inv = record {
    each = λ i d g.
        let (p, h, e) = get_elem?-map_cases resume (map persisted w.conns) i d g in
        let (c, k, q) = get_elem?-map_cases persisted w.conns i p h in
        rw (e, h, q) (restart-Fits w.file v.file c (w.locals i) (inv.each i c k));
    unused = λ i g. rw (get_elem?-map-none resume (map persisted w.conns) i g) refl;
    covered = λ x b. elim (inv.covered x b) [
      | inl good ↦ inl (Reach-Good remote size x run inv good)
      | inr (i, c, g, p) ↦ inr (
        i,
        restarted_one c,
        get_elem?-map resume (map persisted w.conns) i (persisted c)
            (get_elem?-map persisted w.conns i c g),
        rw ((one-chunk c).0) p,
      )
    ];
    shares =
        sum_of-map resume share share share-resume (map persisted w.conns)
        ∙ sum_of-map persisted share share share-persisted w.conns
        ∙ inv.shares;
  }
