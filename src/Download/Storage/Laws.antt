-- ===== src/Download/Storage/Laws.antt =====
-- pkg/download/storage.go: what each operation of the storage in memory does to every key.
use Prim.Native.String.{String}
use text.Mathlib.Text.{◌==◌ as str_eq}
use text.Mathlib.TextEquality.{eq_iff}
use gopeed_torbox.Base.{
  ◌≡◌, refl, inl, inr, Bool, true, false, ◌&&◌, ◌||◌, Option, none, some, Option-cases, insert,
  without, ◌∙◌, List, [], ◌∷◌, arith, if◌then◌else◌, lookup, insert, lookup-insert, lookup-without,
}
use gopeed_torbox.Download.Task.{has_id}
use gopeed_torbox.Download.Storage.{MemStorage, bucket_of, make_bucket, setup, put, get, delete}

abbrev pub present {ℓ} : {A : Type ℓ} → Option A → Bool
present none = false
present (some x) = true

module _ {ℓ} {V : Type ℓ} where
  unfoldable pub has_bucket : String → MemStorage V → Bool
  has_bucket b s = present (bucket_of b s)

  pub get-put :
      (b k i j : String) (v : V) (s : MemStorage V)
      → has_bucket b s ≡ true
      → get i j (put b k v s) ≡ (if str_eq b i && str_eq k j then some v else get i j s)
  unfolding get put has_bucket bucket_of
  get-put b k i j v s h = elim (Option-cases (lookup b s.buckets)) [
    | inl e ↦ ground (arith, e, h)
    | inr (m, e) ↦ ground (
      arith,
      e,
      eq_iff b i,
      eq_iff k j,
      lookup-insert i b (insert k v m) s.buckets,
      lookup-insert j k v m,
    )
  ]

  pub get-delete :
      (b k i j : String) (s : MemStorage V)
      → get i j (delete b k s) ≡ (if str_eq b i && str_eq k j then none else get i j s)
  unfolding get delete bucket_of
  get-delete b k i j s = elim (Option-cases (lookup b s.buckets)) [
    | inl e ↦ ground (arith, e, eq_iff b i)
    | inr (m, e) ↦ ground (
      arith,
      e,
      eq_iff b i,
      eq_iff k j,
      lookup-insert i b (without k m) s.buckets,
      lookup-without j k m,
    )
  ]

  pub has_bucket-put :
      (b k i : String) (v : V) (s : MemStorage V) → has_bucket i (put b k v s) ≡ has_bucket i s
  unfolding put has_bucket bucket_of
  has_bucket-put b k i v s = elim (Option-cases (lookup b s.buckets)) [
    | inl e ↦ ground (arith, e)
    | inr (m, e) ↦ ground (arith, e, eq_iff b i, lookup-insert i b (insert k v m) s.buckets)
  ]

  pub has_bucket-delete :
      (b k i : String) (s : MemStorage V) → has_bucket i (delete b k s) ≡ has_bucket i s
  unfolding delete has_bucket bucket_of
  has_bucket-delete b k i s = elim (Option-cases (lookup b s.buckets)) [
    | inl e ↦ ground (arith, e)
    | inr (m, e) ↦ ground (arith, e, eq_iff b i, lookup-insert i b (without k m) s.buckets)
  ]

  make_bucket-get :
      (b i j : String) (s : MemStorage V) → get i j (make_bucket b s (bucket_of b s)) ≡ get i j s
  unfolding get bucket_of lookup
  make_bucket-get b i j s = elim (Option-cases (lookup b s.buckets)) [
    | inl e ↦ ground (arith, e, eq_iff b i, lookup-insert i b [] s.buckets)
    | inr (m, e) ↦ ground (arith, e)
  ]

  make_bucket-has :
      (b i : String) (s : MemStorage V)
      → has_bucket i (make_bucket b s (bucket_of b s)) ≡ str_eq b i || has_bucket i s
  unfolding has_bucket bucket_of
  make_bucket-has b i s = elim (Option-cases (lookup b s.buckets)) [
    | inl e ↦ ground (arith, e, eq_iff b i, lookup-insert i b [] s.buckets)
    | inr (m, e) ↦ ground (arith, e, eq_iff b i)
  ]

  pub get-setup :
      (bs : List String) (i j : String) (s : MemStorage V) → get i j (setup bs s) ≡ get i j s
  unfolding setup
  get-setup [] i j s = refl
  get-setup (b ∷ bs) i j s =
      get-setup bs i j (make_bucket b s (bucket_of b s)) ∙ make_bucket-get b i j s

  pub has_bucket-setup :
      (bs : List String) (i : String) (s : MemStorage V)
      → has_bucket i (setup bs s) ≡ has_id i bs || has_bucket i s
  unfolding setup has_id
  has_bucket-setup [] i s = refl
  has_bucket-setup (b ∷ bs) i s = ground (
    arith,
    eq_iff b i,
    eq_iff i b,
    has_bucket-setup bs i (make_bucket b s (bucket_of b s)),
    make_bucket-has b i s,
  )
