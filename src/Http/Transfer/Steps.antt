-- ===== src/Http/Transfer/Steps.antt =====
-- The invariant across every kind of step, and across sequences of them.
use gopeed_torbox.Base.{ℕ, ◌+◌, ◌≡◌, refl, sym, subst, inl, inr, Option, some, get_elem?}
use gopeed_torbox.Http.Chunk.{Connection, Reservation, commit, write_at}
use gopeed_torbox.Http.Retry.{on_failure}
use gopeed_torbox.Http.Transfer.{
  Local, World, Step, Reach, begin_run, nothing_left, open_body, receive, receive_none, write,
  account, end_of_body, help, finish, fail, expand, here, next, resting, streaming, reserved,
  written, chunk_done, stopped, update, request, launch, renew, complete,
}
use gopeed_torbox.Http.Transfer.Invariant.{share, At, Fits, Inv}
use gopeed_torbox.Http.Transfer.Updates.{one-Inv, conn-Inv, local-Inv, owner}
use gopeed_torbox.Http.Transfer.Sections.{
  Good-write, write-Good, nothing_left-Fits, open_body-Fits, receive-Fits, receive_none-Fits,
  end_of_body-Fits, complete-Fits, commit-Fits, share-commit, moved-commit,
}
use gopeed_torbox.Http.Transfer.Failures.{fail-Fits, on_failure-chunk}
use gopeed_torbox.Http.Transfer.Theft.{help-Inv}
use gopeed_torbox.Http.Transfer.Growth.{grow-Inv}

module _ (remote : ℕ → ℕ) (size : ℕ) where
  -- The connection of a goroutine at a known place.
  pub at_place :
      (w : World) (i : ℕ) (c : Connection) (l : Local)
      → Inv remote size w
      → get_elem? w.conns i ≡ some c
      → w.locals i ≡ l
      → Fits remote size w.file c l
  at_place w i c l inv g e = subst (Fits remote size w.file c) e (inv.each i c g)

  -- A write of the server's bytes, as seen by every goroutine.
  write-At :
      (file : ℕ → Option ℕ) (n pos : ℕ) (c : Connection) (l : Local)
      → At remote size file c l
      → At remote size (write_at file (λ k. remote (pos + k)) n pos) c l
  write-At file n pos c resting a = a
  write-At file n pos c (streaming p stop) a = a
  write-At file n pos c (reserved r p stop) a = a
  write-At file n pos c (written r p stop) a =
      (a.0, a.1, λ x h b. Good-write remote size file n pos x (a.2 x h b))
  write-At file n pos c chunk_done a = a
  write-At file n pos c stopped a = a

  write-Fits :
      (file : ℕ → Option ℕ) (n pos : ℕ) (c : Connection) (l : Local)
      → Fits remote size file c l
      → Fits remote size (write_at file (λ k. remote (pos + k)) n pos) c l
  write-Fits file n pos c l f = record {
    within = f.within;
    below = f.below;
    agree = f.agree;
    at = write-At file n pos c l f.at;
  }

  abbrev filled : World → ℕ → ℕ → World
  filled w n pos = record w { file = write_at w.file (λ k. remote (pos + k)) n pos }

  filled-Inv : (w : World) (n pos : ℕ) → Inv remote size w → Inv remote size (filled w n pos)
  filled-Inv w n pos inv = record {
    each = λ j d h. write-Fits w.file n pos d (w.locals j) (inv.each j d h);
    unused = inv.unused;
    covered = λ x b. elim (inv.covered x b) [
      | inl good ↦ inl (Good-write remote size w.file n pos x good)
      | inr p ↦ inr p
    ];
    shares = inv.shares;
  }

  write-Inv :
      (w : World) (i pos stop : ℕ) (r : Reservation)
      → Inv remote size w
      → w.locals i ≡ reserved r pos stop
      → Inv remote size (record w {
        locals = update w.locals i (written r pos stop);
        file = write_at w.file (λ k. remote (pos + k)) r.count r.offset;
      })
  write-Inv w i pos stop r inv e =
      let (c, g) = owner remote size w i inv (λ q. cc) in
      let f = at_place w i c (reserved r pos stop) inv g e in
      subst
        (λ o. Inv remote size (record w {
          locals = update w.locals i (written r pos stop);
          file = write_at w.file (λ k. remote (pos + k)) r.count o;
        }))
        (sym f.at.1.2)
        (local-Inv remote size (filled w r.count pos) i c (written r pos stop)
          (filled-Inv w r.count pos inv) g
          (record {
            within = f.within;
            below = f.below;
            agree = f.agree;
            at = (f.at.0, f.at.1, λ x h b. write-Good remote size w.file r.count pos x h b);
          }))

  share-failure : (c : Connection) (e : _) → share (on_failure e c).conn ≡ share c
  share-failure c e = let (k, d, _) = on_failure-chunk e c in rw (k, d)

  renew-At :
      (file : ℕ → Option ℕ) (c : Connection) (l : Local)
      → At remote size file c l
      → At remote size file (renew c) l
  unfolding renew
  renew-At file c resting a = a
  renew-At file c (streaming pos stop) a = a
  renew-At file c (reserved r pos stop) a = a
  renew-At file c (written r pos stop) a = a
  renew-At file c chunk_done a = a
  renew-At file c stopped a = a

  renew-Fits :
      (file : ℕ → Option ℕ) (c : Connection) (l : Local)
      → Fits remote size file c l
      → Fits remote size file (renew c) l
  unfolding renew
  renew-Fits file c l f = record {
    within = f.within;
    below = f.below;
    agree = f.agree;
    at = renew-At file c l f.at;
  }

  launch-Fits :
      (file : ℕ → Option ℕ) (c : Connection)
      → Fits remote size file c resting
      → Fits remote size file (launch c) resting
  unfolding launch
  launch-Fits file c f = record { within = f.within; below = f.below; agree = λ q. cc; at = f.at }

  -- A section of a goroutine keeps the invariant.
  pub Step-Inv : {w v : World} → Step remote w v → Inv remote size w → Inv remote size v
  Step-Inv {w} (begin_run i c g l n) inv =
      let f = launch-Fits w.file c (at_place w i c resting inv g l) in
      conn-Inv remote size w i c (launch c) inv g
        (subst (Fits remote size w.file (launch c)) (sym l) f) (unfold launch in refl)
        (λ x h. inr (unfold launch in h))
  Step-Inv {w} (nothing_left i c g l z) inv =
      local-Inv remote size w i c chunk_done inv g
        (nothing_left-Fits remote size w.file c (at_place w i c resting inv g l) z)
  Step-Inv {w} (open_body i c g l p) inv =
      one-Inv remote size w i c (request c) _ inv g
        (open_body-Fits remote size w.file c (at_place w i c resting inv g l))
        (unfold request in refl) (λ x h. inr (unfold request in h))
  Step-Inv {w} (receive i n pos stop c r g l p b e) inv =
      local-Inv remote size w i c (reserved r pos stop) inv g (
        receive-Fits remote size w.file c n pos stop r (at_place w i c (streaming pos stop) inv g l)
          b e)
  Step-Inv {w} (receive_none i n pos stop c g l e) inv =
      local-Inv remote size w i c chunk_done inv g (
        receive_none-Fits remote size w.file c n pos stop
          (at_place w i c (streaming pos stop) inv g l) e)
  Step-Inv {w} (write i pos stop r l) inv = write-Inv w i pos stop r inv l
  Step-Inv {w} (account i pos stop speed c r g l) inv =
      let f = at_place w i c (written r pos stop) inv g l in
      one-Inv remote size w i c (commit c r.count speed) _ inv g
        (commit-Fits remote size w.file c pos stop speed r f)
        (share-commit remote size w.file c pos stop speed r f)
        (moved-commit remote size w.file c pos stop speed r f)
  Step-Inv {w} (end_of_body i pos stop l h) inv =
      let (c, g) = owner remote size w i inv (λ q. cc) in
      local-Inv remote size w i c chunk_done inv g (
        end_of_body-Fits remote size w.file c pos stop (at_place w i c (streaming pos stop) inv g l)
          h)
  Step-Inv {w} (help i conns h l e gh) inv =
      let (c, g) = owner remote size w i inv (λ q. cc) in
      let inv' = help-Inv remote size w i c conns inv g l e in
      conn-Inv remote size _ i h (renew h) inv' gh (renew-Fits w.file h _ (inv'.each i h gh))
        (unfold renew in refl) (λ x k. inr (unfold renew in k))
  Step-Inv {w} (finish i c g l e) inv =
      one-Inv remote size w i c (complete c) stopped inv g
        (complete-Fits remote size w.file c (at_place w i c chunk_done inv g l))
        (unfold complete in refl) (λ x h. inr (unfold complete in h))
  Step-Inv {w} (fail i c e g ne k) inv =
      one-Inv remote size w i c (on_failure e c).conn _ inv g
        (fail-Fits remote size w.file c (w.locals i) e (inv.each i c g) ne k) (share-failure c e)
        (λ x h. inr (rw ((on_failure-chunk e c).0) h))
  Step-Inv {w} (expand batch) inv = grow-Inv remote size batch w inv

  -- The transfer invariant, if it holds at the start, holds after any interleaving of the sections
  -- of the goroutines, with thefts, failures and new connections: each byte below the size is in
  -- the file with the server's value or still to be fetched, each goroutine's place fits its
  -- chunk, and what the connections have fetched and have left adds up to the size.
  pub Reach-Inv : {w v : World} → Reach remote w v → Inv remote size w → Inv remote size v
  Reach-Inv here inv = inv
  Reach-Inv (next r s) inv = Step-Inv s (Reach-Inv r inv)
