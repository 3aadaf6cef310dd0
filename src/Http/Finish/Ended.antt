-- ===== src/Http/Finish/Ended.antt =====
-- internal/protocol/http/fetcher.go: `checkCompletion` and `onDownloadComplete` once every goroutine
-- of a range download has returned.
use gopeed_torbox.Base.{
  ℕ, suc, ◌≡◌, refl, subst, ◌⊎◌, inl, inr, true, false, none, some, List, [], ◌∷◌, arith, get_elem?,
}
use gopeed_torbox.Http.Chunk.{Connection, remain, is_failed, done}
use gopeed_torbox.Http.Finish.{
  all_ended, check_completion, blocks, all_chunks_complete, on_download_complete,
}
use gopeed_torbox.Http.Finish.Holes.{all_complete-done}
use gopeed_torbox.Http.Transfer.{World, stopped}
use gopeed_torbox.Http.Transfer.Invariant.{Fits, Inv}

-- What a goroutine that has returned leaves behind.
abbrev Left : Connection → Type 0
Left c = ((c.completed ≡ true) × (remain c.chunk ≡ 0)) ⊎ (is_failed c.state ≡ true)

Left-all_ended :
    (conns : List Connection)
    → ((i : ℕ) (c : Connection) → get_elem? conns i ≡ some c → Left c)
    → all_ended conns ≡ true
unfolding all_ended
Left-all_ended [] h = refl
Left-all_ended (c ∷ cs) h = elim (h 0 c refl) [
  | inl (d, _) ↦ ground (arith, Left-all_ended cs (λ i. h (suc i)))
  | inr f ↦ ground (arith, Left-all_ended cs (λ i. h (suc i)))
]

Left-all_chunks_complete :
    (conns : List Connection)
    → ((i : ℕ) (c : Connection) → get_elem? conns i ≡ some c → Left c)
    → ((i : ℕ) (c : Connection) → get_elem? conns i ≡ some c → is_failed c.state ≡ false)
    → all_chunks_complete conns ≡ true
unfolding all_chunks_complete blocks
Left-all_chunks_complete [] h n = refl
Left-all_chunks_complete (c ∷ cs) h n = elim (h 0 c refl) [
  | inl (d, r) ↦ ground (arith, Left-all_chunks_complete cs (λ i. h (suc i)) (λ i. n (suc i)))
  | inr f ↦ absurd (cc (n 0 c refl))
]

module _ (remote : ℕ → ℕ) (size : ℕ) (w : World) (inv : Inv remote size w)
    (ended : (i : ℕ) (c : Connection) → get_elem? w.conns i ≡ some c → w.locals i ≡ stopped) where
  each-Left : (i : ℕ) (c : Connection) → get_elem? w.conns i ≡ some c → Left c
  unfolding remain
  each-Left i c g =
      let f : Fits remote size w.file c stopped =
        subst (Fits remote size w.file c) (ended i c g) (inv.each i c g) in
      elim f.at [ inl (d, e) ↦ inl (d, omega arith) | inr (a, _, _) ↦ inr a ]

  -- In a world with the transfer invariant whose goroutines have all returned, `checkCompletion`
  -- finds the download at its end.
  pub stopped-check_completion : check_completion size w.conns ≡ true
  unfolding check_completion
  stopped-check_completion = ground (arith, Left-all_ended w.conns each-Left)

  -- In a world with the transfer invariant whose goroutines have all returned, and in which no
  -- connection is in the failed state, the fetcher ends in stateDone and reports no error.
  pub unfailed-done :
      ((i : ℕ) (c : Connection) → get_elem? w.conns i ≡ some c → is_failed c.state ≡ false)
      → on_download_complete size w.conns ≡ (done, none)
  unfailed-done n = all_complete-done size w.conns (Left-all_chunks_complete w.conns each-Left n)
