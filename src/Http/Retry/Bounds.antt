-- ===== src/Http/Retry/Bounds.antt =====
-- internal/protocol/http/fetcher.go: how often `runConnection` tries again.
use gopeed_torbox.Base.{
  ℕ, ◌+◌, ◌<◌, ◌≡◌, ◌↔◌, refl, Bool, true, false, not, ◌&&◌, ◌||◌, if◌then◌else◌, arith, List, [],
  ◌∷◌, ◌⊎◌, inl, inr,
}
use gopeed_torbox.Http.Chunk.{Connection, Err, request_error, canceled, other}
use gopeed_torbox.Http.Retry.{
  should_count_http_failure, is_forbidden, Next, again, give_up, on_failure, run_failures,
}

-- An error that ends the goroutine at once.
abbrev pub is_fatal : Err → Bool
is_fatal canceled = true
is_fatal (request_error code) = is_forbidden (request_error code)
is_fatal other = false

-- An error that counts towards the limit.
abbrev pub counts : Err → Bool
counts e = should_count_http_failure e && not (is_fatal e)

abbrev pub counted : List Err → ℕ
counted [] = 0
counted (e ∷ es) = (if counts e then 1 else 0) + counted es

abbrev pub any_fatal : List Err → Bool
any_fatal [] = false
any_fatal (e ∷ es) = is_fatal e || any_fatal es

forbidden-counts :
    (code : ℕ)
    → is_forbidden (request_error code) ≡ true
    → should_count_http_failure (request_error code) ≡ true
unfolding is_forbidden should_count_http_failure
forbidden-counts code h = ground arith

abbrev weight : Err → ℕ
weight e = if counts e then 1 else 0

step_next :
    (e : Err) (c : Connection)
    → c.retry_times < 3
    → ((on_failure e c).next ≡ again) ↔ ((is_fatal e ≡ false) × (weight e + c.retry_times < 3))
unfolding on_failure
step_next (request_error code) c h =
    (λ q. (ground arith, ground arith), λ q. ground (arith, forbidden-counts code))
step_next canceled c h = (λ q. cc, λ q. cc)
step_next other c h = (λ q. (refl, omega arith), λ q. refl)

step_retries :
    (e : Err) (c : Connection)
    → is_fatal e ≡ false
    → (on_failure e c).conn.retry_times ≡ weight e + c.retry_times
unfolding on_failure
step_retries (request_error code) c h = ground arith
step_retries canceled c h = cc
step_retries other c h = omega arith

Next-cases : (n : Next) → (n ≡ again) ⊎ (n ≡ give_up)
Next-cases again = inl refl
Next-cases give_up = inr refl

-- A connection that has counted fewer than three failures goes on after a list of errors exactly
-- when none of them is fatal and the counted ones leave it below three.
pub again_iff :
    (es : List Err) (c : Connection)
    → c.retry_times < 3
    → ((run_failures es c).1 ≡ again) ↔ ((any_fatal es ≡ false) × (counted es + c.retry_times < 3))
unfolding run_failures
again_iff [] c h = (λ q. (refl, omega arith), λ q. refl)
again_iff (e ∷ es) c h = elim (Next-cases ((on_failure e c).next)) [
  | inr stop ↦ (
    λ q. absurd (cc (rw (stop, run_failures) at q)),
    λ (f, b). absurd (cc ((step_next e c h).1 (ground arith, ground arith))),
  )
  | inl go ↦
      let (f, b) = (step_next e c h).0 go in
      let k = step_retries e c f in
      let (to, from) = again_iff es (on_failure e c).conn (omega arith) in
      rw (go, run_failures)
        (λ q. let (x, y) = to q in (rw f x, omega arith), λ (x, y). from (rw f at x, omega arith))
]
