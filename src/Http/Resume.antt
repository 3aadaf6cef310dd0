-- ===== src/Http/Resume.antt =====
-- internal/protocol/http/fetcher.go: `resumeConnections`, which starts the unfinished connections
-- again after a pause, and the reset of `doStart` before a retry.
use gopeed_torbox.Base.{
  ℕ, ◌+◌, ◌≡◌, refl, ◌∙◌, inl, inr, Bool, true, false, not, ◌&&◌, ◌||◌, Option, none, some, List,
  map, leb, if◌then◌else◌, arith, get_elem?, get_elem?-map_cases, get_elem?-map, get_elem?-map-none,
  sum_of-map, Bool-cases,
}
use gopeed_torbox.Http.Chunk.{Connection, not_started, is_failed, is_completed}
use gopeed_torbox.Http.Finish.{last_forbidden}
use gopeed_torbox.Http.Transfer.{
  Local, World, resting, streaming, reserved, written, chunk_done, stopped,
}
use gopeed_torbox.Http.Transfer.Invariant.{share, At, Fits, Inv}

-- The connections that stay as they are: completed ones, and those that failed with 403 or for the
-- third time.
unfoldable pub skips : Connection → Bool
unfolding last_forbidden
skips c =
    (c.completed || is_completed c.state)
    || ((is_failed c.state && c.failed) && (last_forbidden c.last_err || leb 3 c.retry_times))

unfoldable pub resume : Connection → Connection
resume c = if skips c then c else record c { state = not_started; failed = false }

unfoldable pub resume_connections : List Connection → List Connection
resume_connections conns = map resume conns

-- A goroutine for each connection that is not skipped.
abbrev pub resumed_local : Option Connection → Local
resumed_local none = resting
resumed_local (some c) = if skips c then stopped else resting

unfoldable pub resumed : World → World
unfolding resume_connections
resumed w = record w {
  conns = resume_connections w.conns;
  locals = λ i. resumed_local (get_elem? w.conns i);
}

unfoldable pub reset_for_retry : Connection → Connection
reset_for_retry c =
    if not c.completed && not (is_completed c.state)
    then record c { state = not_started; failed = false; retry_times = 0; last_err = none }
    else c

resume-chunk :
    (c : Connection) → ((resume c).chunk ≡ c.chunk) × ((resume c).downloaded ≡ c.downloaded)
unfolding resume
resume-chunk c = (ground arith, ground arith)

not_skipped : (c : Connection) → skips c ≡ false → c.completed ≡ false
unfolding skips
not_skipped c h = ground arith

pub share-resume : (c : Connection) → share (resume c) ≡ share c
share-resume c = let (k, d) = resume-chunk c in rw (k, d)

module _ (remote : ℕ → ℕ) (size : ℕ) where
  pub completed-done :
      (file : ℕ → Option ℕ) (c : Connection) (l : Local)
      → At remote size file c l
      → c.completed ≡ true
      → c.chunk.begin + c.chunk.downloaded ≡ c.chunk.end + 1
  completed-done file c resting a e = cc
  completed-done file c (streaming pos stop) a e = cc
  completed-done file c (reserved r pos stop) a e = cc
  completed-done file c (written r pos stop) a e = cc
  completed-done file c chunk_done a e = cc
  completed-done file c stopped (inl (_, d)) e = d
  completed-done file c stopped (inr (_, _, o)) e = cc

  skipped-At :
      (file : ℕ → Option ℕ) (c : Connection) (l : Local)
      → Fits remote size file c l
      → skips c ≡ true
      → At remote size file c stopped
  unfolding skips
  skipped-At file c l f h = elim (Bool-cases c.completed) [
    | inl e ↦ inl (e, completed-done file c l f.at e)
    | inr e ↦ inr (ground (arith, f.agree), ground (arith, f.agree), e)
  ]

  resume-Fits :
      (file : ℕ → Option ℕ) (c : Connection) (l : Local)
      → Fits remote size file c l
      → Fits remote size file (resume c) (resumed_local (some c))
  unfolding resume
  resume-Fits file c l f = elim (Bool-cases (skips c)) [
    | inl e ↦ rw e (record {
      within = f.within;
      below = f.below;
      agree = f.agree;
      at = skipped-At file c l f e;
    })
    | inr e ↦
        rw e (record { within = f.within; below = f.below; agree = λ q. cc; at = not_skipped c e })
  ]

  -- The world in which the fetcher goes on after a pause, at whatever point its goroutines were
  -- canceled, has the transfer invariant, if the world before had it.
  pub resumed-Inv : (w : World) → Inv remote size w → Inv remote size (resumed w)
  unfolding resumed
  resumed-Inv w inv = record {
    each = λ i d g.
        let (c, h, e) = get_elem?-map_cases resume w.conns i d g in
        rw (e, h) (resume-Fits w.file c (w.locals i) (inv.each i c h));
    unused = λ i g. rw (get_elem?-map-none resume w.conns i g) refl;
    covered = λ x b. elim (inv.covered x b) [
      | inl good ↦ inl good
      | inr (i, c, g, p) ↦
          inr (i, resume c, get_elem?-map resume w.conns i c g, rw ((resume-chunk c).0) p)
    ];
    shares = sum_of-map resume share share share-resume w.conns ∙ inv.shares;
  }
