-- ===== src/Util/Files/Fresh.antt =====
-- pkg/util/path.go: the name that `CheckDuplicateAndRename` chooses.
use gopeed_torbox.Base.{
  ℕ, zero, suc, ◌+◌, ◌≤◌, ◌<◌, ◌≡◌, refl, inl, inr, true, false, some, List, arith, Bool-cases, ◌≢◌,
  subst, ℕ_discrete,
}
use gopeed_torbox.Util.Files.{
  Stat, found, not_exist, is_not_exist, name_template, named, first_free,
  check_duplicate_and_rename,
}

module _ (stat : List ℕ → Stat) (sprintf : List ℕ → ℕ → List ℕ) where
  -- The name of number `n` is the first free one from `i` on.
  abbrev pub FirstFree : List ℕ → ℕ → ℕ → Type 0
  FirstFree template i n =
      (i ≤ n)
      × (is_not_exist (stat (sprintf template n)) ≡ true)
      × ((j : ℕ) → i ≤ j → j < n → is_not_exist (stat (sprintf template j)) ≡ false)

  first_free-FirstFree :
      (template : List ℕ) (b fuel i : ℕ)
      → is_not_exist (stat (sprintf template b)) ≡ true
      → i ≤ b
      → b < i + fuel
      → (n : ℕ) × (first_free stat sprintf template fuel i ≡ some (named (sprintf template n)))
        × FirstFree template i n
  unfolding first_free
  first_free-FirstFree template b zero i free l h = absurd (omega (arith, l, h))
  first_free-FirstFree template b (suc fuel) i free l h =
      elim (Bool-cases (is_not_exist (stat (sprintf template i)))) [
        | inl e ↦
            (i, rw (e, first_free) refl, (omega arith, e, λ j p u. absurd (omega (arith, p, u))))
        | inr e ↦
            let other : i ≢ b = λ q.
              ground
                (arith, subst (λ x. is_not_exist (stat (sprintf template x)) ≡ false) q e, free) in
            let (n, r, (p, f, before)) =
              first_free-FirstFree template b fuel (suc i) free (omega (arith, other, l))
                (omega (arith, h)) in
            (
              n,
              rw (e, first_free, r) refl,
              (
                omega (arith, p),
                f,
                λ j q u. elim (ℕ_discrete i j) [
                  | yes same ↦ subst (λ x. is_not_exist (stat (sprintf template x)) ≡ false) same e
                  | no apart ↦ before j (omega (arith, q, apart)) u
                ],
              ),
            )
      ]

  -- If a name is taken and the numbered name of some number from 1 on is free,
  -- CheckDuplicateAndRename ends within as many rounds, with the first numbered name, counted from
  -- 1, that is free.
  pub check_duplicate-FirstFree :
      (name : List ℕ) (b : ℕ)
      → stat name ≡ found
      → 1 ≤ b
      → stat (sprintf (name_template name) b) ≡ not_exist
      → (n : ℕ) × (check_duplicate_and_rename stat sprintf b name
          ≡ some (named (sprintf (name_template name) n)))
        × FirstFree (name_template name) 1 n
  unfolding check_duplicate_and_rename
  check_duplicate-FirstFree name b used l free =
      let (n, r, f) =
        first_free-FirstFree (name_template name) b b 1 (ground (arith, free)) l (omega arith) in
      (n, rw (used, check_duplicate_and_rename) r, f)
