-- ===== src/Http/Transfer/Updates.antt =====
-- The invariant, and sections that touch one connection or one goroutine only.
use mathlib.Core.Path.{subst₂}
use gopeed_torbox.Base.{
  ℕ, ◌≡◌, ◌≢◌, sym, ◌∙◌, subst, Option-cases, ◌⊎◌, inl, inr, some, arith, get_elem?, set,
  ℕ_discrete, sum_of-set,
}
use gopeed_torbox.Http.Chunk.{Connection}
use gopeed_torbox.Http.Transfer.{Local, World, resting, update}
use gopeed_torbox.Http.Transfer.Invariant.{
  share, InChunk, Good, Fits, Inv, update_self, update_ne, get_elem?-set_cases, get_elem?-set-none,
  Pending-set,
}

module _ (remote : ℕ → ℕ) (size : ℕ) where
  -- One connection moves on, and its share of the file stays the same.
  pub one-Inv :
      (w : World) (i : ℕ) (c v : Connection) (l : Local)
      → Inv remote size w
      → get_elem? w.conns i ≡ some c
      → Fits remote size w.file v l
      → share v ≡ share c
      → ((x : ℕ) → InChunk c.chunk x → Good remote size w.file x ⊎ InChunk v.chunk x)
      → Inv remote size (record w { conns = set w.conns i v; locals = update w.locals i l })
  one-Inv w i c v l inv g fits same moved = record {
    each = λ j d h. elim (get_elem?-set_cases w.conns i j v d c g h) [
      | inl (e, k) ↦
          subst₂ (Fits remote size w.file) (sym k)
            (sym (subst (λ n. update w.locals i l n ≡ l) e (update_self w.locals i l))) fits
      | inr (n, k) ↦
          subst (Fits remote size w.file d) (sym (update_ne w.locals i j l n)) (inv.each j d k)
    ];
    unused = λ j h.
        let (n, k) = get_elem?-set-none w.conns i j v c g h in
        update_ne w.locals i j l n ∙ inv.unused j k;
    covered = λ x b. elim (inv.covered x b) [
      | inl good ↦ inl good
      | inr p ↦ Pending-set w.conns i c v x g (moved x) p
    ];
    shares = omega (arith, sum_of-set share w.conns i v c g, inv.shares, same);
  }

  same_place : (f : ℕ → Local) (i j : ℕ) → update f i (f i) j ≡ f j
  same_place f i j = elim (ℕ_discrete i j) [
    | yes e ↦ subst (λ n. update f i (f i) n ≡ f n) e (update_self f i (f i))
    | no n ↦ update_ne f i j (f i) n
  ]

  -- Only the connection changes, in a way that does not concern its share of the file.
  pub conn-Inv :
      (w : World) (i : ℕ) (c v : Connection)
      → Inv remote size w
      → get_elem? w.conns i ≡ some c
      → Fits remote size w.file v (w.locals i)
      → share v ≡ share c
      → ((x : ℕ) → InChunk c.chunk x → Good remote size w.file x ⊎ InChunk v.chunk x)
      → Inv remote size (record w { conns = set w.conns i v })
  conn-Inv w i c v inv g fits same moved =
      subst (λ f. Inv remote size (record w { conns = set w.conns i v; locals = f }))
        (λ k j. same_place w.locals i j k) (one-Inv w i c v (w.locals i) inv g fits same moved)

  -- Only the goroutine's place changes.
  pub local-Inv :
      (w : World) (i : ℕ) (c : Connection) (l : Local)
      → Inv remote size w
      → get_elem? w.conns i ≡ some c
      → Fits remote size w.file c l
      → Inv remote size (record w { locals = update w.locals i l })
  local-Inv w i c l inv g fits = record {
    each = λ j d h. elim (ℕ_discrete i j) [
      | yes e ↦
          let same : d ≡ c = cc in
          subst₂ (Fits remote size w.file) (sym same)
            (sym (subst (λ n. update w.locals i l n ≡ l) e (update_self w.locals i l))) fits
      | no n ↦ subst (Fits remote size w.file d) (sym (update_ne w.locals i j l n)) (inv.each j d h)
    ];
    unused = λ j h. elim (ℕ_discrete i j) [
      | yes e ↦ absurd (cc)
      | no n ↦ update_ne w.locals i j l n ∙ inv.unused j h
    ];
    covered = inv.covered;
    shares = inv.shares;
  }

  -- A goroutine that does not rest has a connection.
  pub owner :
      (w : World) (i : ℕ)
      → Inv remote size w
      → w.locals i ≢ resting
      → (c : Connection) × (get_elem? w.conns i ≡ some c)
  owner w i inv h = elim (Option-cases (get_elem? w.conns i)) [
    | inl e ↦ absurd (h (inv.unused i e))
    | inr (c, e) ↦ (c, e)
  ]
