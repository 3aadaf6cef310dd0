-- ===== src/Http/Transfer/Theft.antt =====
-- internal/protocol/http/fetcher.go: `helpOtherConnection` and the invariant.
use mathlib.Core.Path.{subst₂}
use mathlib.Core.Option.{some-injective}
use gopeed_torbox.Base.{
  ℕ, ◌+◌, ◌≡◌, ◌≢◌, ◌⊎◌, inl, inr, false, none, some, arith, List, get_elem?, set, Option-cases,
  ◌∙◌, sym, subst, get_elem?-set_self, get_elem?-set_ne, sum_of-set,
}
use gopeed_torbox.Http.Chunk.{Chunk, Connection, remain, is_failed}
use gopeed_torbox.Http.Steal.{choose, steal_score, steal, stolen, shrunk, help_other_connection}
use gopeed_torbox.Http.Transfer.{World, resting, chunk_done, update}
use gopeed_torbox.Http.Transfer.Invariant.{
  share, InChunk, Pending, Good, Fits, Inv, update_self, update_ne, get_elem?-set_cases,
  get_elem?-set-none, Pending-set,
}
use gopeed_torbox.Http.Transfer.Split.{
  Splits, stolen-Splits, Splits-remain, Splits-InChunk, steal_score_lem, chosen,
}
use gopeed_torbox.Http.Transfer.Victims.{victim-Fits, taker-Fits}

module _ (remote : ℕ → ℕ) (size : ℕ) where
  module _ (w : World) (v : Connection) (a b : Chunk) (j : ℕ) where
    -- The helper `i`, whose chunk is done, takes the part `b` of the chunk of `j`.
    pub theft-Inv :
        (i : ℕ) (h : Connection)
        → Inv remote size w
        → get_elem? w.conns i ≡ some h
        → get_elem? w.conns j ≡ some v
        → w.locals i ≡ chunk_done
        → j ≢ i
        → Splits v.chunk a b
        → v.completed ≡ false
        → is_failed v.state ≡ false
        → Inv remote size (record w {
          conns = set (set w.conns i (record h { chunk = b })) j (record v { chunk = a });
          locals = update w.locals i resting;
        })
    theft-Inv i h inv gi gj done ne s open_ up = record {
      each = each;
      unused = unused;
      covered = λ x p. elim (inv.covered x p) [ inl good ↦ inl good | inr pend ↦ covered x pend ];
      shares = omega (
        arith,
        sum_of-set share w.conns i (record h { chunk = b }) h gi,
        sum_of-set share conns₁ j (record v { chunk = a }) v gj₁,
        Splits-remain v.chunk a b s,
        inv.shares,
        empty,
        whole,
      );
    }
      where
        conns₁ : List Connection
        conns₁ = set w.conns i (record h { chunk = b })

        h-Fits : Fits remote size w.file h chunk_done
        h-Fits = subst (Fits remote size w.file h) done (inv.each i h gi)

        gj₁ : get_elem? conns₁ j ≡ some v
        gj₁ = get_elem?-set_ne w.conns i j (record h { chunk = b }) (λ e. ne (sym e)) ∙ gj

        empty : remain h.chunk ≡ 0
        empty = unfold remain in omega (arith, h-Fits.at)

        whole : remain a + remain b ≡ remain v.chunk
        whole = Splits-remain v.chunk a b s

        each :
            (k : ℕ) (d : Connection)
            → get_elem? (set conns₁ j (record v { chunk = a })) k ≡ some d
            → Fits remote size w.file d (update w.locals i resting k)
        each k d g = elim (get_elem?-set_cases conns₁ j k (record v { chunk = a }) d v gj₁ g) [
          | inl (e, q) ↦
              subst₂ (Fits remote size w.file) (sym q)
                (sym (
                  subst (λ n. update w.locals i resting n ≡ w.locals j) e
                    (update_ne w.locals i j resting (λ e. ne (sym e)))))
                (victim-Fits remote size w.file v a b (w.locals j) s open_ up (inv.each j v gj))
          | inr (_, g₁) ↦
              elim (get_elem?-set_cases w.conns i k (record h { chunk = b }) d h gi g₁) [
                | inl (e, q) ↦
                    subst₂ (Fits remote size w.file) (sym q)
                      (sym (
                        subst (λ n. update w.locals i resting n ≡ resting) e
                          (update_self w.locals i resting)))
                      (taker-Fits remote size w.file v h a b (w.locals j) s h-Fits.at.0 h-Fits.agree
                        (inv.each j v gj))
                | inr (n, g₂) ↦
                    subst (Fits remote size w.file d) (sym (update_ne w.locals i k resting n))
                      (inv.each k d g₂)
              ]
        ]

        unused :
            (k : ℕ)
            → get_elem? (set conns₁ j (record v { chunk = a })) k ≡ none
            → update w.locals i resting k ≡ resting
        unused k g =
            let (_, g₁) = get_elem?-set-none conns₁ j k (record v { chunk = a }) v gj₁ g in
            let (n, g₂) = get_elem?-set-none w.conns i k (record h { chunk = b }) h gi g₁ in
            update_ne w.locals i k resting n ∙ inv.unused k g₂

        taken : (x : ℕ) → InChunk b x → Pending (set conns₁ j (record v { chunk = a })) x
        taken x p = (
          i,
          record h { chunk = b },
          get_elem?-set_ne conns₁ j i (record v { chunk = a }) ne
              ∙ get_elem?-set_self w.conns i (record h { chunk = b }) h gi,
          p,
        )

        moved :
            (x : ℕ)
            → InChunk v.chunk x
            → Pending (set conns₁ j (record v { chunk = a })) x ⊎ InChunk a x
        moved x p = elim (Splits-InChunk v.chunk a b x s p) [
          | inl q ↦ inr q
          | inr q ↦ inl (taken x q)
        ]

        covered :
            (x : ℕ)
            → Pending w.conns x
            → Good remote size w.file x ⊎ Pending (set conns₁ j (record v { chunk = a })) x
        covered x p =
            elim (Pending-set {Q = ⊥} w.conns i h (record h { chunk = b }) x gi
              (λ q. absurd (omega (arith, h-Fits.at, q))) p) [
                | inl q ↦ absurd q
                | inr q ↦ elim (Pending-set conns₁ j v (record v { chunk = a }) x gj₁ (moved x) q) [
                  | inl t ↦ inr t
                  | inr t ↦ inr t
                ]
              ]

  steal_lem :
      (conns : List Connection) (i j : ℕ) (h v : Connection)
      → get_elem? conns i ≡ some h
      → get_elem? conns j ≡ some v
      → steal i j conns
        ≡ some (
            set
              (set conns i (record h { chunk = stolen v.chunk }))
              j
              (record v { chunk = shrunk v.chunk }))
  unfolding steal
  steal_lem conns i j h v g k = rw (g, k, steal)

  -- `helpOtherConnection` keeps the invariant.
  pub help-Inv :
      (w : World) (i : ℕ) (h : Connection) (conns : List Connection)
      → Inv remote size w
      → get_elem? w.conns i ≡ some h
      → w.locals i ≡ chunk_done
      → help_other_connection i w.conns ≡ some conns
      → Inv remote size (record w { conns = conns; locals = update w.locals i resting })
  unfolding help_other_connection
  help-Inv w i h conns inv g done e =
      elim (Option-cases ((choose (steal_score i) 0 w.conns (none, 0)).0)) [
        | inl q ↦ absurd (cc (rw (q, help_other_connection) at e))
        | inr (j, q) ↦
            let (v, gj, score) = chosen (steal_score i) w.conns j q in
            let (ne, open_, up, enough) = steal_score_lem i j v _ score in
            let taken : steal i j w.conns ≡ some conns = rw (q, help_other_connection) at e in
            subst
              (λ cs. Inv remote size (record w { conns = cs; locals = update w.locals i resting }))
              (some-injective _ _ (sym (steal_lem w.conns i j h v g gj) ∙ taken))
              (theft-Inv w v (shrunk v.chunk) (stolen v.chunk) j i h inv g gj done ne
                (stolen-Splits v.chunk enough) open_ up)
      ]
