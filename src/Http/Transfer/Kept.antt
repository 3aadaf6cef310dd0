-- ===== src/Http/Transfer/Kept.antt =====
-- The bytes that the file has, across the steps of the goroutines.
use gopeed_torbox.Base.{ℕ, ◌+◌, sym, subst}
use gopeed_torbox.Http.Chunk.{write_at}
use gopeed_torbox.Http.Transfer.{World, Step, Reach, write, reserved, here, next}
use gopeed_torbox.Http.Transfer.Invariant.{Good, Inv}
use gopeed_torbox.Http.Transfer.Updates.{owner}
use gopeed_torbox.Http.Transfer.Sections.{Good-write}
use gopeed_torbox.Http.Transfer.Steps.{at_place, Reach-Inv}

module _ (remote : ℕ → ℕ) (size : ℕ) (x : ℕ) where
  Step-Good :
      {w v : World}
      → Step remote w v
      → Inv remote size w
      → Good remote size w.file x
      → Good remote size v.file x
  Step-Good {w} (write i pos stop r l) inv good =
      let (c, g) = owner remote size w i inv (λ q. cc) in
      let f = at_place remote size w i c (reserved r pos stop) inv g l in
      subst (λ o. Good remote size (write_at w.file (λ k. remote (pos + k)) r.count o) x)
        (sym f.at.1.2) (Good-write remote size w.file r.count pos x good)
  Step-Good s inv good = good

  -- A byte of the server that is in the file stays there.
  pub Reach-Good :
      {w v : World}
      → Reach remote w v
      → Inv remote size w
      → Good remote size w.file x
      → Good remote size v.file x
  Reach-Good here inv good = good
  Reach-Good (next r s) inv good = Step-Good s (Reach-Inv remote size r inv) (Reach-Good r inv good)
