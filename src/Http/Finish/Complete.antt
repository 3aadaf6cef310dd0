-- ===== src/Http/Finish/Complete.antt =====
-- internal/protocol/http/fetcher.go: when `onDownloadComplete` reports success, and the file then.
use gopeed_torbox.Base.{
  ℕ, zero, suc, ◌+◌, ◌≤◌, ◌<◌, ◌≡◌, refl, subst, ◌⊎◌, inl, inr, true, false, Option, none, some,
  List, [], ◌∷◌, arith, leb, get_elem?, sum_of, le-sum_of, Bool-cases, leb→le,
}
use gopeed_torbox.Http.Chunk.{Connection, remain, is_failed, done}
use gopeed_torbox.Http.Finish.{
  total_downloaded, is_forbidden_failure, blocks, all_chunks_complete, reports, first_error,
  download_complete, final_error, FinalError, on_download_complete, state_after,
}
use gopeed_torbox.Http.Transfer.{World, Reach, stopped}
use gopeed_torbox.Http.Transfer.Invariant.{share, Good, Fits, Inv}
use gopeed_torbox.Http.Transfer.Steps.{Reach-Inv}

sum_of-share :
    (conns : List Connection)
    → sum_of share conns ≡ total_downloaded conns + sum_of (λ c. remain c.chunk) conns
unfolding total_downloaded
sum_of-share [] = refl
sum_of-share (c ∷ cs) = omega (arith, sum_of-share cs)

module _ (remote : ℕ → ℕ) (size : ℕ) (w : World) (inv : Inv remote size w) where
  -- In a world with the transfer invariant, the total of the connections' downloaded bytes does
  -- not pass the size.
  pub total_downloaded-le : total_downloaded w.conns ≤ size
  total_downloaded-le = omega (arith, sum_of-share w.conns, inv.shares)

  -- A byte that no connection has left to fetch is in the file.
  nothing_pending :
      ((i : ℕ) (c : Connection) → get_elem? w.conns i ≡ some c → remain c.chunk ≡ 0)
      → (x : ℕ) → x < size
      → Good remote size w.file x
  unfolding remain
  nothing_pending h x b = elim (inv.covered x b) [
    | inl good ↦ good
    | inr (i, c, g, p) ↦ absurd (omega (arith, h i c g, p.0, p.1))
  ]

  pub downloaded-Good :
      size ≤ total_downloaded w.conns → (x : ℕ) → x < size → Good remote size w.file x
  downloaded-Good h = nothing_pending λ i c g. omega (
    arith,
    le-sum_of (λ (c : Connection). remain c.chunk) w.conns i c g,
    sum_of-share w.conns,
    inv.shares,
  )

-- How a goroutine has ended: its chunk is done, or it failed, and not with 403.
abbrev Ended : Connection → Type 0
Ended c =
    ((c.completed ≡ true) × (remain c.chunk ≡ 0))
    ⊎ ((is_failed c.state ≡ true)
        × (c.failed ≡ true)
        × (c.completed ≡ false)
        × (is_forbidden_failure c ≡ false))

not-blocks : (c : Connection) → Ended c → blocks c ≡ false → remain c.chunk ≡ 0
unfolding blocks
not-blocks c (inl (_, d)) h = d
not-blocks c (inr (f, g, o, n)) h = ground arith

not-reports : (c : Connection) → Ended c → reports c ≡ false → remain c.chunk ≡ 0
unfolding reports
not-reports c (inl (_, d)) h = d
not-reports c (inr (f, g, o, n)) h = ground arith

all_chunks-remain :
    (conns : List Connection)
    → ((i : ℕ) (c : Connection) → get_elem? conns i ≡ some c → Ended c)
    → all_chunks_complete conns ≡ true
    → (i : ℕ) (c : Connection) → get_elem? conns i ≡ some c
    → remain c.chunk ≡ 0
unfolding all_chunks_complete
all_chunks-remain [] e h i c g = cc
all_chunks-remain (d ∷ ds) e h zero c g = not-blocks c (e 0 c g) (ground arith)
all_chunks-remain (d ∷ ds) e h (suc i) c g =
    all_chunks-remain ds (λ k. e (suc k)) (ground arith) i c g

no_error-remain :
    (n : ℕ) (conns : List Connection)
    → ((i : ℕ) (c : Connection) → get_elem? conns i ≡ some c → Ended c)
    → first_error n conns ≡ none
    → (i : ℕ) (c : Connection) → get_elem? conns i ≡ some c
    → remain c.chunk ≡ 0
unfolding first_error
no_error-remain n [] e h i c g = cc
no_error-remain n (d ∷ ds) e h zero c g = not-reports c (e 0 c g) (ground arith)
no_error-remain n (d ∷ ds) e h (suc i) c g =
    no_error-remain (suc n) ds (λ k. e (suc k)) (ground arith) i c g

final_error-remain :
    (size : ℕ) (conns : List Connection)
    → ((i : ℕ) (c : Connection) → get_elem? conns i ≡ some c → Ended c)
    → final_error size conns ≡ none
    → (size ≤ total_downloaded conns)
      ⊎ ((i : ℕ) (c : Connection) → get_elem? conns i ≡ some c → remain c.chunk ≡ 0)
unfolding final_error download_complete
final_error-remain size conns e h = elim (Bool-cases (leb size (total_downloaded conns))) [
  | inl full ↦ inl (leb→le _ _ full)
  | inr part ↦ elim (Bool-cases (all_chunks_complete conns)) [
    | inl all ↦ inr (all_chunks-remain conns e all)
    | inr some_left ↦ inr (no_error-remain 0 conns e (ground arith))
  ]
]

state_after-done : (e : Option FinalError) → state_after e ≡ done → e ≡ none
unfolding state_after
state_after-done none h = refl
state_after-done (some e) h = cc

module _ (remote : ℕ → ℕ) (size : ℕ) where
  stopped-Ended :
      (file : ℕ → Option ℕ) (c : Connection)
      → Fits remote size file c stopped
      → is_forbidden_failure c ≡ false
      → Ended c
  unfolding remain
  stopped-Ended file c f n = elim f.at [
    | inl (e, d) ↦ inl (e, omega arith)
    | inr (a, b, o) ↦ inr (a, b, o, n)
  ]

  -- Start from any world with the invariant, let the goroutines run in any order until each has
  -- returned, and let none have failed with 403. If `onDownloadComplete` then ends in the state
  -- done, each byte of the file is the server's.
  pub done-Good :
      (u w : World)
      → Inv remote size u
      → Reach remote u w
      → ((i : ℕ) (c : Connection)
          → get_elem? w.conns i ≡ some c
          → (w.locals i ≡ stopped) × (is_forbidden_failure c ≡ false))
      → (on_download_complete size w.conns).0 ≡ done
      → (x : ℕ) → x < size
      → Good remote size w.file x
  unfolding on_download_complete
  done-Good u w start run ended finished =
      elim (final_error-remain size w.conns all_ended (state_after-done _ finished)) [
        | inl full ↦ downloaded-Good remote size w inv full
        | inr none_left ↦ nothing_pending remote size w inv none_left
      ]
    where
      inv : Inv remote size w
      inv = Reach-Inv remote size run start

      all_ended : (i : ℕ) (c : Connection) → get_elem? w.conns i ≡ some c → Ended c
      all_ended i c g =
          let (s, n) = ended i c g in
          stopped-Ended w.file c (subst (Fits remote size w.file c) s (inv.each i c g)) n
