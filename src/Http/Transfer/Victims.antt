-- ===== src/Http/Transfer/Victims.antt =====
-- internal/protocol/http/fetcher.go: the two connections between which a chunk is cut, and where
-- their goroutines stand.
use gopeed_torbox.Base.{ℕ, ◌≡◌, inl, inr, true, false, Option, arith}
use gopeed_torbox.Http.Chunk.{Chunk, Connection, is_failed, is_completed}
use gopeed_torbox.Http.Transfer.{Local, resting, streaming, reserved, written, chunk_done, stopped}
use gopeed_torbox.Http.Transfer.Invariant.{At, Fits}
use gopeed_torbox.Http.Transfer.Split.{Splits}

module _ (remote : ℕ → ℕ) (size : ℕ) where
  -- The victim goes on with the front of its chunk, wherever its goroutine stands.
  victim-At :
      (file : ℕ → Option ℕ) (v : Connection) (a b : Chunk) (l : Local)
      → Splits v.chunk a b
      → v.completed ≡ false
      → is_failed v.state ≡ false
      → At remote size file v l
      → At remote size file (record v { chunk = a }) l
  victim-At file v a b resting s o n h = h
  victim-At file v a b (streaming pos stop) s o n h = (o, omega arith, omega arith)
  victim-At file v a b (reserved r pos stop) s o n h = (o, omega arith)
  victim-At file v a b (written r pos stop) s o n h = (o, omega arith, h.2)
  victim-At file v a b chunk_done s o n h = absurd (omega arith)
  victim-At file v a b stopped s o n (inl (c, _)) = cc
  victim-At file v a b stopped s o n (inr (f, _, _)) = cc

  pub victim-Fits :
      (file : ℕ → Option ℕ) (v : Connection) (a b : Chunk) (l : Local)
      → Splits v.chunk a b
      → v.completed ≡ false
      → is_failed v.state ≡ false
      → Fits remote size file v l
      → Fits remote size file (record v { chunk = a }) l
  victim-Fits file v a b l s o n f = record {
    within = omega (arith, s.room, s.same_begin, s.same_downloaded);
    below = omega (arith, s.joined, s.not_empty, s.same_end, f.below);
    agree = f.agree;
    at = victim-At file v a b l s o n f.at;
  }

  pub taker-Fits :
      (file : ℕ → Option ℕ) (v h : Connection) (a b : Chunk) (l : Local)
      → Splits v.chunk a b
      → h.completed ≡ false
      → (is_completed h.state ≡ true → h.completed ≡ true)
      → Fits remote size file v l
      → Fits remote size file (record h { chunk = b }) resting
  taker-Fits file v h a b l s o g f = record {
    within = omega (arith, s.nothing_yet, s.not_empty);
    below = omega (arith, s.same_end, f.below);
    agree = g;
    at = o;
  }
