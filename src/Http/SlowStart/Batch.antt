-- ===== src/Http/SlowStart/Batch.antt =====
-- internal/protocol/http/fetcher.go: batches of connections and the signal for the next one.
use gopeed_torbox.Base.{ℕ, zero, suc, ◌+◌, ◌-◌, ◌≤◌, ◌<◌, ◌≡◌, refl, ◌∙◌, true, arith}
use gopeed_torbox.Http.SlowStart.{SlowStart, on_connect_success, on_connect_failed, commit_batch}

-- `n` connections in turn get their response, or fail.
pub succeed : ℕ → SlowStart → SlowStart
succeed zero s = s
succeed (suc n) s = succeed n (on_connect_success s).0

pub fail : ℕ → SlowStart → SlowStart
fail zero s = s
fail (suc n) s = fail n (on_connect_failed s)

success-expansion : (s : SlowStart) → s.expansion ≡ true → (on_connect_success s).0.expansion ≡ true
unfolding on_connect_success
success-expansion s h = ground arith

success_last :
    (s : SlowStart)
    → s.batch_pending ≤ s.batch_ready + 1
    → (on_connect_success s).0.expansion ≡ true
unfolding on_connect_success
success_last s h = ground arith

success_early :
    (s : SlowStart)
    → s.batch_ready + 1 < s.batch_pending
    → (on_connect_success s).0.expansion ≡ s.expansion
unfolding on_connect_success
success_early s h = ground arith

success-counts :
    (s : SlowStart)
    → ((on_connect_success s).0.batch_ready ≡ s.batch_ready + 1)
      × ((on_connect_success s).0.batch_pending ≡ s.batch_pending)
unfolding on_connect_success
success-counts s = (ground arith, ground arith)

failed-counts :
    (s : SlowStart)
    → ((on_connect_failed s).batch_ready ≡ s.batch_ready)
      × ((on_connect_failed s).batch_pending ≡ s.batch_pending - 1)
unfolding on_connect_failed
failed-counts s = (ground arith, ground arith)

failed_last : (s : SlowStart) → s.batch_pending ≤ 1 → (on_connect_failed s).expansion ≡ true
unfolding on_connect_failed
failed_last s h = ground arith

failed_early : (s : SlowStart) → 1 < s.batch_pending → (on_connect_failed s).expansion ≡ s.expansion
unfolding on_connect_failed
failed_early s h = ground arith

succeed-keeps : (n : ℕ) (s : SlowStart) → s.expansion ≡ true → (succeed n s).expansion ≡ true
unfolding succeed
succeed-keeps zero s h = h
succeed-keeps (suc n) s h = succeed-keeps n _ (success-expansion s h)

succeed-signals :
    (n : ℕ) (s : SlowStart)
    → s.batch_pending ≤ s.batch_ready + n
    → 0 < n
    → (succeed n s).expansion ≡ true
unfolding succeed
succeed-signals zero s h p = absurd (omega arith)
succeed-signals (suc zero) s h p = success_last s h
succeed-signals (suc (suc n)) s h p =
    succeed-signals (suc n) _ (omega (arith, success-counts s)) (omega arith)

succeed-early :
    (n : ℕ) (s : SlowStart)
    → s.batch_ready + n < s.batch_pending
    → ((succeed n s).expansion ≡ s.expansion) × ((succeed n s).batch_pending ≡ s.batch_pending)
unfolding succeed
succeed-early zero s h = (refl, refl)
succeed-early (suc n) s h =
    let (e, p) = succeed-early n (on_connect_success s).0 (omega (arith, success-counts s)) in
    (e ∙ success_early s (omega arith), p ∙ (success-counts s).1)

fail-counts :
    (n : ℕ) (s : SlowStart)
    → ((fail n s).batch_ready ≡ s.batch_ready) × ((fail n s).batch_pending ≡ s.batch_pending - n)
unfolding fail
fail-counts zero s = (refl, omega arith)
fail-counts (suc n) s =
    let (r, p) = fail-counts n (on_connect_failed s) in
    (r ∙ (failed-counts s).0, omega (arith, p, failed-counts s))

fail-signals : (n : ℕ) (s : SlowStart) → s.batch_pending ≤ n → 0 < n → (fail n s).expansion ≡ true
unfolding fail
fail-signals zero s h p = absurd (omega arith)
fail-signals (suc zero) s h p = failed_last s h
fail-signals (suc (suc n)) s h p =
    fail-signals (suc n) (on_connect_failed s) (omega (arith, failed-counts s)) (omega arith)

fail-early : (n : ℕ) (s : SlowStart) → n < s.batch_pending → (fail n s).expansion ≡ s.expansion
unfolding fail
fail-early zero s h = refl
fail-early (suc n) s h =
    fail-early n (on_connect_failed s) (omega (arith, failed-counts s))
    ∙ failed_early s (omega arith)

commit-counts :
    (s : SlowStart) (n : ℕ)
    → ((commit_batch s n).batch_pending ≡ n)
      × ((commit_batch s n).batch_ready ≡ 0)
      × ((commit_batch s n).expansion ≡ s.expansion)
unfolding commit_batch
commit-counts s n = (refl, refl, refl)

-- A batch of at least one connection in which the failures come before the successes ends with the
-- signal for the next batch.
pub failures_first-signal :
    (s : SlowStart) (failures successes : ℕ)
    → 0 < failures + successes
    → (succeed successes (fail failures (commit_batch s (failures + successes)))).expansion ≡ true
failures_first-signal s failures zero h =
    succeed-keeps zero _
      (fail-signals failures _ (omega (arith, commit-counts s (failures + 0))) (omega arith))
failures_first-signal s failures (suc successes) h =
    let t = commit_batch s (failures + suc successes) in
    succeed-signals (suc successes) (fail failures t)
      (omega (arith, fail-counts failures t, commit-counts s (failures + suc successes)))
      (omega arith)

-- A batch in which some connections succeed and then the others, at least one, fail ends with no
-- new signal.
pub successes_first-no_signal :
    (s : SlowStart) (successes failures : ℕ)
    → 0 < successes
    → 0 < failures
    → (fail failures (succeed successes (commit_batch s (successes + failures)))).expansion
      ≡ s.expansion
successes_first-no_signal s successes failures p q =
    let t = commit_batch s (successes + failures) in
    let (e, k) =
      succeed-early successes t (omega (arith, commit-counts s (successes + failures))) in
    fail-early failures (succeed successes t)
      (omega (arith, k, commit-counts s (successes + failures)))
    ∙ e
    ∙ (commit-counts s (successes + failures)).2
