-- ===== src/Http/Transfer/Growth.antt =====
-- internal/protocol/http/fetcher.go: the new connections of `expandConnections` and the invariant.
use mathlib.Core.Path.{subst₂}
use gopeed_torbox.Base.{
  ℕ, zero, suc, ◌≡◌, refl, ◌⊎◌, inl, inr, false, none, some, arith, List, [], ◌∷◌, ◌++◌, get_elem?,
  set, length, Option-cases, sym, ap, get_elem?-length, get_elem?-append_cases,
  get_elem?-append_none, get_elem?-append_left, get_elem?-append_last, sum_of-set, sum_of-append,
  length-set,
}
use gopeed_torbox.Http.Chunk.{Chunk, Connection, is_failed, worker, new_connection}
use gopeed_torbox.Http.Steal.{choose}
use gopeed_torbox.Http.Expand.{split_score, kept, handed_over, split, grow}
use gopeed_torbox.Http.Transfer.{World, resting}
use gopeed_torbox.Http.Transfer.Invariant.{
  share, InChunk, Pending, Fits, Inv, get_elem?-set_cases, get_elem?-set-none, Pending-set,
}
use gopeed_torbox.Http.Transfer.Split.{
  Splits, kept-Splits, Splits-remain, Splits-InChunk, split_score_lem, chosen,
}
use gopeed_torbox.Http.Transfer.Victims.{victim-Fits, taker-Fits}

module _ (remote : ℕ → ℕ) (size : ℕ) where
  module _ (w : World) (v : Connection) (a b : Chunk) (j : ℕ) where
    -- A new connection takes the part `b` of the chunk of `j`.
    pub launch-Inv :
        Inv remote size w
        → get_elem? w.conns j ≡ some v
        → Splits v.chunk a b
        → v.completed ≡ false
        → is_failed v.state ≡ false
        → Inv remote size (record w {
          conns = set w.conns j (record v { chunk = a }) ++ new_connection worker b 0 ∷ [];
        })
    unfolding new_connection
    launch-Inv inv gj s open_ up = record {
      each = λ k d g.
          elim (get_elem?-append_cases (set w.conns j (record v { chunk = a })) n d k g) [
            | inl g₁ ↦ elim (get_elem?-set_cases w.conns j k (record v { chunk = a }) d v gj g₁) [
              | inl (e, q) ↦
                  subst₂ (Fits remote size w.file) (sym q) (ap w.locals e)
                    (victim-Fits remote size w.file v a b (w.locals j) s open_ up (inv.each j v gj))
              | inr (_, g₂) ↦ inv.each k d g₂
            ]
            | inr (e, q) ↦ subst₂ (Fits remote size w.file) (sym q) (sym (rests k e)) (
                taker-Fits remote size w.file v n a b (w.locals j) s refl (λ q. cc)
                  (inv.each j v gj))
          ];
      unused = λ k g.
          inv.unused k
            (get_elem?-set-none w.conns j k (record v { chunk = a }) v gj
              (get_elem?-append_none (set w.conns j (record v { chunk = a })) (n ∷ []) k g)).1;
      covered = λ x p. elim (inv.covered x p) [
        | inl good ↦ inl good
        | inr pend ↦
            inr (launched x (Pending-set w.conns j v (record v { chunk = a }) x gj (moved x) pend))
      ];
      shares = omega (
        arith,
        sum_of-append share (set w.conns j (record v { chunk = a })) (n ∷ []),
        sum_of-set share w.conns j (record v { chunk = a }) v gj,
        Splits-remain v.chunk a b s,
        inv.shares,
      );
    }
      where
        n : Connection
        n = new_connection worker b 0

        rests : (k : ℕ) → k ≡ length (set w.conns j (record v { chunk = a })) → w.locals k ≡ resting
        rests k e =
            inv.unused k
              (rw (e, length-set w.conns j (record v { chunk = a })) (get_elem?-length w.conns))

        moved : (x : ℕ) → InChunk v.chunk x → InChunk b x ⊎ InChunk a x
        moved x p = elim (Splits-InChunk v.chunk a b x s p) [ inl q ↦ inr q | inr q ↦ inl q ]

        launched :
            (x : ℕ)
            → InChunk b x ⊎ Pending (set w.conns j (record v { chunk = a })) x
            → Pending (set w.conns j (record v { chunk = a }) ++ n ∷ []) x
        launched x (inl q) = (
          length (set w.conns j (record v { chunk = a })),
          n,
          get_elem?-append_last (set w.conns j (record v { chunk = a })) n,
          q,
        )
        launched x (inr (i, d, g, p)) =
            (i, d, get_elem?-append_left (set w.conns j (record v { chunk = a })) (n ∷ []) i d g, p)

  split_lem :
      (conns : List Connection) (j : ℕ) (v : Connection)
      → get_elem? conns j ≡ some v
      → split j conns
        ≡ set conns j (record v { chunk = kept v.chunk })
          ++ new_connection worker (handed_over v.chunk) 0 ∷ []
  unfolding split
  split_lem conns j v g = rw (g, split)

  -- The loop of `expandConnections` keeps the invariant, for every batch.
  pub grow-Inv :
      (batch : ℕ) (w : World)
      → Inv remote size w
      → Inv remote size (record w { conns = grow batch w.conns })
  unfolding grow
  grow-Inv zero w inv = inv
  grow-Inv (suc batch) w inv = elim (Option-cases ((choose split_score 0 w.conns (none, 0)).0)) [
    | inl q ↦ rw (q, grow) inv
    | inr (j, q) ↦
        let (v, gj, score) = chosen split_score w.conns j q in
        let (open_, up, enough) = split_score_lem j v _ score in
        rw (q, grow)
          (grow-Inv batch (record w { conns = split j w.conns })
            (rw (split_lem w.conns j v gj) (
              launch-Inv w v (kept v.chunk) (handed_over v.chunk) j inv gj
                (kept-Splits v.chunk enough) open_ up)))
  ]
