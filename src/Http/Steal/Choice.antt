-- ===== src/Http/Steal/Choice.antt =====
-- internal/protocol/http/fetcher.go: the choice loops, and the position that they return.
use gopeed_torbox.Base.{
  ℕ, zero, suc, ◌+◌, ◌≤◌, ◌≡◌, refl, ◌∙◌, sym, subst, ◌⊎◌, inl, inr, Option, none, some, List, [],
  ◌∷◌, ltb, arith, get_elem?, ap, Bool-cases,
}
use gopeed_torbox.Http.Chunk.{Connection}
use gopeed_torbox.Http.Steal.{better, choose}

module _ (score : ℕ → Connection → Option ℕ) where
  -- The position `j` of the list, which begins at position `i`, has the score `s`.
  abbrev pub Scored : ℕ → List Connection → ℕ → ℕ → Type 0
  Scored i rs j s =
      (k : ℕ) × (c : Connection) × (j ≡ i + k) × (get_elem? rs k ≡ some c) × (score j c ≡ some s)

  Scored-cons :
      (i : ℕ) (r : Connection) (rs : List Connection) (j s : ℕ)
      → Scored (suc i) rs j s
      → Scored i (r ∷ rs) j s
  Scored-cons i r rs j s (k, c, e, g, h) = (suc k, c, omega arith, g, h)

  better_cases :
      (o : Option ℕ) (i : ℕ) (b : Option ℕ × ℕ)
      → (better o i b ≡ b) ⊎ ((s : ℕ) × (o ≡ some s) × (better o i b ≡ (some i, s)))
  unfolding better
  better_cases none i b = inl refl
  better_cases (some s) i (best, m) = elim (Bool-cases (ltb m s)) [
    | inl e ↦ inr (s, refl, rw e)
    | inr e ↦ inl (rw e)
  ]

  better-le : (o : Option ℕ) (i : ℕ) (b : Option ℕ × ℕ) → b.1 ≤ (better o i b).1
  unfolding better
  better-le none i b = omega arith
  better-le (some s) i (best, m) = ground arith

  better_max : (s i : ℕ) (b : Option ℕ × ℕ) → s ≤ (better (some s) i b).1
  unfolding better
  better_max s i (best, m) = ground arith

  -- The loop keeps what it was given, or returns a position with its score.
  pub choose_cases :
      (i : ℕ) (rs : List Connection) (b : Option ℕ × ℕ)
      → (choose score i rs b ≡ b)
        ⊎ ((j : ℕ) × ((choose score i rs b).0 ≡ some j) × Scored i rs j (choose score i rs b).1)
  unfolding choose
  choose_cases i [] b = inl refl
  choose_cases i (r ∷ rs) b = elim (choose_cases (suc i) rs (better (score i r) i b)) [
    | inr (j, e, t) ↦ inr (j, e, Scored-cons i r rs j _ t)
    | inl e ↦ elim (better_cases (score i r) i b) [
      | inl k ↦ inl (e ∙ k)
      | inr (s, o, k) ↦ inr (
        i,
        ap (λ p. p.0) (e ∙ k),
        (0, r, omega arith, refl, o ∙ ap some (sym (ap (λ p. p.1) (e ∙ k)))),
      )
    ]
  ]

  choose-le : (i : ℕ) (rs : List Connection) (b : Option ℕ × ℕ) → b.1 ≤ (choose score i rs b).1
  unfolding choose
  choose-le i [] b = omega arith
  choose-le i (r ∷ rs) b =
      omega (arith, choose-le (suc i) rs (better (score i r) i b), better-le (score i r) i b)

  -- No position of the list has a larger score.
  pub choose_max :
      (i : ℕ) (rs : List Connection) (b : Option ℕ × ℕ) (j s : ℕ)
      → Scored i rs j s
      → s ≤ (choose score i rs b).1
  unfolding choose
  choose_max i [] b j s (k, c, e, g, h) = cc
  choose_max i (r ∷ rs) b j s (zero, c, e, g, h) =
      let e' : j ≡ i = omega arith in
      let h' : score i r ≡ some s = cc in
      omega (
        arith,
        choose-le (suc i) rs (better (score i r) i b),
        subst (λ o. s ≤ (better o i b).1) (sym h') (better_max s i b),
      )
  choose_max i (r ∷ rs) b j s (suc k, c, e, g, h) =
      choose_max (suc i) rs (better (score i r) i b) j s (k, c, omega arith, g, h)
