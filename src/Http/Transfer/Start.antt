-- ===== src/Http/Transfer/Start.antt =====
-- The world in which the first connection starts, behind the bytes that were prefetched.
use gopeed_torbox.Base.{
  ℕ, zero, suc, ◌-◌, ◌<◌, ◌≡◌, refl, subst, inl, inr, Option, some, [], ◌∷◌, arith, get_elem?,
  dec_lt,
}
use gopeed_torbox.Http.Chunk.{Connection, new_connection, new_chunk, primary, remain}
use gopeed_torbox.Http.Transfer.{World, resting}
use gopeed_torbox.Http.Transfer.Invariant.{Good, Fits, Inv}

unfoldable pub first_world : ℕ → ℕ → (ℕ → Option ℕ) → World
unfolding new_connection new_chunk
first_world prefetched size file = record {
  conns = new_connection primary (new_chunk prefetched (size - 1)) prefetched ∷ [];
  locals = λ _. resting;
  file = file;
}

-- The world of the first connection has the transfer invariant, if the prefetched bytes are fewer
-- than the size and are in the file.
pub first-Inv :
    (remote : ℕ → ℕ) (size prefetched : ℕ) (file : ℕ → Option ℕ)
    → prefetched < size
    → ((x : ℕ) → x < prefetched → Good remote size file x)
    → Inv remote size (first_world prefetched size file)
unfolding first_world new_connection new_chunk remain
first-Inv remote size prefetched file b h = record {
  each = each;
  unused = λ i g. refl;
  covered = λ x l. elim (dec_lt x prefetched) [
    | yes y ↦ inl (h x y)
    | no n ↦ inr (0, _, refl, (omega (arith, n), omega arith))
  ];
  shares = omega arith;
}
  where
    first : Connection
    first = new_connection primary (new_chunk prefetched (size - 1)) prefetched

    fits : Fits remote size file first resting
    fits = record { within = omega arith; below = omega arith; agree = λ q. cc; at = refl }

    each :
        (i : ℕ) (c : Connection)
        → get_elem? (first ∷ []) i ≡ some c
        → Fits remote size file c resting
    each zero c g =
        let e : first ≡ c = cc in subst (λ (d : Connection). Fits remote size file d resting) e fits
    each (suc i) c g = cc
