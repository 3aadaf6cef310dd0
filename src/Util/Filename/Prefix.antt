-- ===== src/Util/Filename/Prefix.antt =====
-- pkg/util/path.go: how much `truncateAtValidUTF8Boundary` cuts off.
use gopeed_torbox.Base.{
  ℕ, zero, suc, ◌≤◌, ◌<◌, ◌≡◌, refl, ap, Bool, true, List, [], ◌∷◌, leb, length, take, ℕ_discrete,
  arith, Bool-cases, inl, inr, leb→le,
}
use gopeed_torbox.Util.Filename.{truncate_down, truncate_at_valid_utf8_boundary}

take-length : (n : ℕ) (s : List ℕ) → n ≤ length s → length (take n s) ≡ n
take-length zero s h = refl
take-length (suc n) [] h = absurd (omega (arith, h))
take-length (suc n) (b ∷ bs) h = ap suc (take-length n bs (omega (arith, h)))

module _ (valid : List ℕ → Bool) where
  down-valid : (n : ℕ) (s : List ℕ) → valid [] ≡ true → valid (truncate_down valid n s) ≡ true
  unfolding truncate_down
  down-valid zero s e = e
  down-valid (suc n) s e = elim (Bool-cases (valid (take (suc n) s))) [
    | inl v ↦ rw (v, truncate_down) v
    | inr i ↦ rw (i, truncate_down) (down-valid n s e)
  ]

  down-longest :
      (n : ℕ) (s : List ℕ)
      → n ≤ length s
      → (k : ℕ) → k ≤ n
      → valid (take k s) ≡ true
      → k ≤ length (truncate_down valid n s)
  unfolding truncate_down
  down-longest zero s h k l v = omega arith
  down-longest (suc n) s h k l v = elim (Bool-cases (valid (take (suc n) s))) [
    | inl u ↦ rw (u, truncate_down) (omega (arith, take-length (suc n) s h))
    | inr i ↦ elim (ℕ_discrete k (suc n)) [
      | yes e ↦ absurd (cc)
      | no d ↦ rw (i, truncate_down) (down-longest n s (omega arith) k (omega (arith, d)) v)
    ]
  ]

  -- Where the empty string is valid, `truncateAtValidUTF8Boundary` cuts a name longer than the
  -- limit to a valid prefix, and no valid prefix within the limit is longer.
  pub truncate-longest :
      (s : List ℕ) (n : ℕ)
      → valid [] ≡ true
      → n < length s
      → (valid (truncate_at_valid_utf8_boundary valid s n) ≡ true)
        × ((k : ℕ)
            → k ≤ n
            → valid (take k s) ≡ true
            → k ≤ length (truncate_at_valid_utf8_boundary valid s n))
  unfolding truncate_at_valid_utf8_boundary
  truncate-longest s n e h = elim (Bool-cases (leb (length s) n)) [
    | inl q ↦ absurd (omega (arith, leb→le (length s) n q, h))
    | inr q ↦
        rw (q, truncate_at_valid_utf8_boundary)
          (down-valid n s e, λ k l v. down-longest n s (omega arith) k l v)
  ]
