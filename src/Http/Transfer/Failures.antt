-- ===== src/Http/Transfer/Failures.antt =====
-- internal/protocol/http/fetcher.go: what an error of a chunk leaves behind in `runConnection`.
use gopeed_torbox.Base.{ℕ, ◌≡◌, ◌≢◌, refl, ◌∙◌, inr, true, false, Option, arith}
use gopeed_torbox.Http.Chunk.{
  Connection, Err, canceled, request_error, other, is_failed, is_completed, is_completed,
}
use gopeed_torbox.Http.Retry.{Next, again, give_up, on_failure}
use gopeed_torbox.Http.Transfer.{
  Local, resting, streaming, reserved, written, chunk_done, stopped, after_failure, can_fail,
}
use gopeed_torbox.Http.Transfer.Invariant.{At, Fits}

pub on_failure-chunk :
    (e : Err) (c : Connection)
    → ((on_failure e c).conn.chunk ≡ c.chunk)
      × ((on_failure e c).conn.downloaded ≡ c.downloaded)
      × ((on_failure e c).conn.completed ≡ c.completed)
unfolding on_failure
on_failure-chunk (request_error code) c = (ground arith, ground arith, ground arith)
on_failure-chunk canceled c = (refl, refl, refl)
on_failure-chunk other c = (ground arith, ground arith, ground arith)

-- A goroutine that gives up leaves its connection marked as failed.
pub on_failure-give_up :
    (e : Err) (c : Connection)
    → e ≢ canceled
    → (on_failure e c).next ≡ give_up
    → (is_failed (on_failure e c).conn.state ≡ true) × ((on_failure e c).conn.failed ≡ true)
unfolding on_failure
on_failure-give_up (request_error code) c h g = ground arith
on_failure-give_up canceled c h g = absurd (h refl)
on_failure-give_up other c h g = ground arith

on_failure-agree :
    (e : Err) (c : Connection)
    → (is_completed c.state ≡ true → c.completed ≡ true)
    → e ≢ canceled
    → is_completed (on_failure e c).conn.state ≡ true
    → c.completed ≡ true
unfolding on_failure
on_failure-agree (request_error code) c f h q = ground arith
on_failure-agree canceled c f h q = absurd (h refl)
on_failure-agree other c f h q = ground arith

module _ (remote : ℕ → ℕ) (size : ℕ) where
  module _ (file : ℕ → Option ℕ) (c : Connection) where
    can_fail-open : (l : Local) → can_fail l ≡ true → At remote size file c l → c.completed ≡ false
    can_fail-open resting k a = a
    can_fail-open (streaming pos stop) k a = a.0
    can_fail-open (reserved r pos stop) k a = a.0
    can_fail-open (written r pos stop) k a = cc
    can_fail-open chunk_done k a = cc
    can_fail-open stopped k a = cc

    fail-At :
        (e : Err) (n : Next)
        → e ≢ canceled
        → (on_failure e c).next ≡ n
        → (on_failure e c).conn.completed ≡ false
        → At remote size file (on_failure e c).conn (after_failure n)
    unfolding after_failure
    fail-At e again h g k = k
    fail-At e give_up h g k = let (a, b) = on_failure-give_up e c h g in inr (a, b, k)

    pub fail-Fits :
        (l : Local) (e : Err)
        → Fits remote size file c l
        → e ≢ canceled
        → can_fail l ≡ true
        → Fits remote size file (on_failure e c).conn (after_failure (on_failure e c).next)
    fail-Fits l e f h k =
        let (chunk, _, completed) = on_failure-chunk e c in
        let open_ = can_fail-open l k f.at in
        record {
          within = rw chunk f.within;
          below = rw chunk f.below;
          agree = λ q. completed ∙ on_failure-agree e c f.agree h q;
          at = fail-At e _ h refl (completed ∙ open_);
        }
