-- ===== src/Http/Transfer/Sections.antt =====
-- The sections of `downloadChunkOnce`, and the two ends of a chunk in `runConnection`: what each
-- makes of the place of its goroutine.
use gopeed_torbox.Base.{
  ℕ, ◌+◌, ◌-◌, ◌≤◌, ◌<◌, ◌≡◌, refl, ap, ◌⊎◌, inl, inr, true, Option, none, some, arith, dec_lt,
  Bool-cases,
}
use gopeed_torbox.Http.Chunk.{Chunk, Connection, Reservation, remain, reserve, commit, write_at}
use gopeed_torbox.Http.Transfer.{
  resting, streaming, reserved, written, chunk_done, stopped, buffer_size, request, complete,
  after_commit,
}
use gopeed_torbox.Http.Transfer.Invariant.{share, InChunk, Reserves, Good, Fits}

-- `reserve` keeps a part of what was read that fits into the chunk.
pub reserve-Reserves :
    (k : Chunk) (n pos stop : ℕ) (r : Reservation)
    → pos ≡ k.begin + k.downloaded
    → k.end ≤ stop
    → n ≤ buffer_size
    → reserve true k n ≡ some r
    → Reserves k r pos stop
unfolding reserve
reserve-Reserves k n pos stop r e h b s = ground arith

pub reserve-none : (k : Chunk) (n : ℕ) → reserve true k n ≡ none → remain k ≡ 0
unfolding reserve
reserve-none k n h = ground arith

module _ (remote : ℕ → ℕ) (size : ℕ) where
  -- Bytes of the server stay good under a write of bytes of the server.
  pub Good-write :
      (file : ℕ → Option ℕ) (n pos x : ℕ)
      → Good remote size file x
      → Good remote size (write_at file (λ k. remote (pos + k)) n pos) x
  unfolding write_at
  Good-write file n pos x g = elim (dec_lt x pos) [
    | yes h ↦ ground arith
    | no h ↦ let e : pos + (x - pos) ≡ x = omega arith in ground (arith, ap remote e)
  ]

  pub write-Good :
      (file : ℕ → Option ℕ) (n pos x : ℕ)
      → pos ≤ x
      → x < pos + n
      → Good remote size (write_at file (λ k. remote (pos + k)) n pos) x
  unfolding write_at
  write-Good file n pos x h b =
      let e : pos + (x - pos) ≡ x = omega arith in ground (arith, ap remote e)

  module _ (file : ℕ → Option ℕ) (c : Connection) where
    pub nothing_left-Fits :
        Fits remote size file c resting → remain c.chunk ≡ 0 → Fits remote size file c chunk_done
    unfolding remain
    nothing_left-Fits f h = record {
      within = f.within;
      below = f.below;
      agree = f.agree;
      at = (f.at, omega (arith, f.within));
    }

    pub open_body-Fits :
        Fits remote size file c resting
        → Fits remote size file
            (request c)
            (streaming (c.chunk.begin + c.chunk.downloaded) c.chunk.end)
    unfolding request
    open_body-Fits f = record {
      within = f.within;
      below = f.below;
      agree = λ e. cc;
      at = (f.at, refl, omega arith);
    }

    pub receive-Fits :
        (n pos stop : ℕ) (r : Reservation)
        → Fits remote size file c (streaming pos stop)
        → n ≤ buffer_size
        → reserve true c.chunk n ≡ some r
        → Fits remote size file c (reserved r pos stop)
    receive-Fits n pos stop r f b h = record {
      within = f.within;
      below = f.below;
      agree = f.agree;
      at = (f.at.0, reserve-Reserves c.chunk n pos stop r f.at.1 f.at.2 b h);
    }

    pub receive_none-Fits :
        (n pos stop : ℕ)
        → Fits remote size file c (streaming pos stop)
        → reserve true c.chunk n ≡ none
        → Fits remote size file c chunk_done
    unfolding remain
    receive_none-Fits n pos stop f h = record {
      within = f.within;
      below = f.below;
      agree = f.agree;
      at = (f.at.0, omega (arith, reserve-none c.chunk n h, f.within));
    }

    pub end_of_body-Fits :
        (pos stop : ℕ)
        → Fits remote size file c (streaming pos stop)
        → stop < pos
        → Fits remote size file c chunk_done
    end_of_body-Fits pos stop f h = record {
      within = f.within;
      below = f.below;
      agree = f.agree;
      at = (f.at.0, omega (arith, f.within, f.at.1, f.at.2));
    }

    pub complete-Fits :
        Fits remote size file c chunk_done → Fits remote size file (complete c) stopped
    unfolding complete
    complete-Fits f = record {
      within = f.within;
      below = f.below;
      agree = λ e. refl;
      at = inl (refl, f.at.1);
    }

    pub commit-Fits :
        (pos stop speed : ℕ) (r : Reservation)
        → Fits remote size file c (written r pos stop)
        → Fits remote size file
            (commit c r.count speed)
            (after_commit r.finished (pos + r.count) stop)
    unfolding commit after_commit
    commit-Fits pos stop speed r f = elim (Bool-cases r.finished) [
      | inl e ↦ rw e (record {
        within = omega (arith, f.at.1);
        below = f.below;
        agree = f.agree;
        at = (f.at.0, omega (arith, f.at.1.0, f.at.1.5 e));
      })
      | inr e ↦ rw e (record {
        within = omega (arith, f.at.1);
        below = f.below;
        agree = f.agree;
        at = (f.at.0, omega (arith, f.at.1.0), f.at.1.1);
      })
    ]

    pub share-commit :
        (pos stop speed : ℕ) (r : Reservation)
        → Fits remote size file c (written r pos stop)
        → share (commit c r.count speed) ≡ share c
    unfolding commit remain
    share-commit pos stop speed r f = omega (arith, f.at.1)

    pub moved-commit :
        (pos stop speed : ℕ) (r : Reservation)
        → Fits remote size file c (written r pos stop)
        → (x : ℕ) → InChunk c.chunk x
        → Good remote size file x ⊎ InChunk (commit c r.count speed).chunk x
    unfolding commit
    moved-commit pos stop speed r f x h = elim (dec_lt x (pos + r.count)) [
      | yes b ↦ inl (f.at.2 x (omega (arith, f.at.1.0, h.0)) b)
      | no b ↦ inr (omega (arith, f.at.1), h.1)
    ]
