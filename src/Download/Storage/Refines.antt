-- ===== src/Download/Storage/Refines.antt =====
-- pkg/download/storage.go: the storage in memory as a map from buckets and keys to values.
use Prim.Native.String.{String}
use text.Mathlib.Text.{◌==◌ as str_eq}
use gopeed_torbox.Base.{
  ◌≡◌, refl, ◌∙◌, ap, Bool, false, ◌&&◌, ◌||◌, Option, none, some, List, [], ◌∷◌, arith,
  if◌then◌else◌, inl, inr, Option-cases, Bool-cases, lookup,
}
use gopeed_torbox.Download.Task.{has_id}
use gopeed_torbox.Download.Storage.{MemStorage, setup, put, get, delete, pop, clear, bucket_of}
use gopeed_torbox.Download.Storage.Laws.{
  has_bucket, get-put, get-delete, has_bucket-put, has_bucket-delete, get-setup, has_bucket-setup,
}

-- The view that forgets how the buckets are kept: which exist, and what each key of each holds.
pub record StorageView {ℓ} (V : Type ℓ) : Type ℓ where
  pub exists : String → Bool
  pub value : String → String → Option V

pub data StorageOp {ℓ} (V : Type ℓ) : Type ℓ where
  sets_up : List String → StorageOp V
  puts : String → String → V → StorageOp V
  pops : String → String → V → StorageOp V
  deletes : String → String → StorageOp V
  clears : StorageOp V

module _ {ℓ} {V : Type ℓ} where
  unfoldable pub storage_step : StorageOp V → MemStorage V → MemStorage V
  unfolding pop
  storage_step (sets_up bs) s = setup bs s
  storage_step (puts b k v) s = put b k v s
  storage_step (pops b k v) s = (pop b k v s).1
  storage_step (deletes b k) s = delete b k s
  storage_step clears s = clear s

  abbrev pub without_key : String → String → StorageView V → StorageView V
  without_key b k m = record m {
    value = λ i j. if str_eq b i && str_eq k j then none else m.value i j;
  }

  -- The specification.
  unfoldable pub view_step : StorageOp V → StorageView V → StorageView V
  unfolding has_id
  view_step (sets_up bs) m = record m { exists = λ i. has_id i bs || m.exists i }
  view_step (puts b k v) m = record m {
    value = λ i j. if m.exists b && (str_eq b i && str_eq k j) then some v else m.value i j;
  }
  view_step (pops b k v) m = without_key b k m
  view_step (deletes b k) m = without_key b k m
  view_step clears m = record { exists = λ i. false; value = λ i j. none }

  unfoldable pub storage_run : List (StorageOp V) → MemStorage V → MemStorage V
  unfolding storage_step
  storage_run [] s = s
  storage_run (o ∷ os) s = storage_run os (storage_step o s)

  unfoldable pub view_run : List (StorageOp V) → StorageView V → StorageView V
  unfolding view_step
  view_run [] m = m
  view_run (o ∷ os) m = view_run os (view_step o m)

  pub record Shows (s : MemStorage V) (m : StorageView V) : Type ℓ where
    pub buckets_agree : (i : String) → has_bucket i s ≡ m.exists i
    pub values_agree : (i j : String) → get i j s ≡ m.value i j

  put-missing : (b k : String) (v : V) (s : MemStorage V) → has_bucket b s ≡ false → put b k v s ≡ s
  unfolding put has_bucket bucket_of
  put-missing b k v s h = elim (Option-cases (lookup b s.buckets)) [
    | inl e ↦ rw e refl
    | inr (m, e) ↦ absurd (ground (arith, e, h))
  ]

  put-Shows :
      (b k : String) (v : V) (s : MemStorage V) (m : StorageView V)
      → Shows s m
      → Shows (put b k v s) (view_step (puts b k v) m)
  unfolding view_step
  put-Shows b k v s m r = record {
    buckets_agree = λ i. has_bucket-put b k i v s ∙ r.buckets_agree i;
    values_agree = λ i j. elim (Bool-cases (has_bucket b s)) [
      | inl e ↦ ground (arith, get-put b k i j v s e, e, r.buckets_agree b, r.values_agree i j)
      | inr e ↦
          ap (get i j) (put-missing b k v s e)
          ∙ ground (arith, e, r.buckets_agree b, r.values_agree i j)
    ];
  }

  delete-Shows :
      (b k : String) (s : MemStorage V) (m : StorageView V)
      → Shows s m
      → Shows (delete b k s) (without_key b k m)
  delete-Shows b k s m r = record {
    buckets_agree = λ i. has_bucket-delete b k i s ∙ r.buckets_agree i;
    values_agree = λ i j. ground (arith, get-delete b k i j s, r.values_agree i j);
  }

  step-Shows :
      (o : StorageOp V) (s : MemStorage V) (m : StorageView V)
      → Shows s m
      → Shows (storage_step o s) (view_step o m)
  unfolding storage_step view_step pop clear has_bucket get bucket_of lookup
  step-Shows (sets_up bs) s m r = record {
    buckets_agree = λ i. ground (arith, has_bucket-setup bs i s, r.buckets_agree i);
    values_agree = λ i j. get-setup bs i j s ∙ r.values_agree i j;
  }
  step-Shows (puts b k v) s m r = put-Shows b k v s m r
  step-Shows (pops b k v) s m r = delete-Shows b k s m r
  step-Shows (deletes b k) s m r = delete-Shows b k s m r
  step-Shows clears s m r = record { buckets_agree = λ i. refl; values_agree = λ i j. refl }

  -- After any sequence of Setup, Put, Pop, Delete and Clear, the storage in memory has the buckets
  -- and values that the same sequence makes of a plain map from buckets and keys to values, where
  -- a Put into a bucket that was not set up does nothing, if it had them before.
  pub run-Shows :
      (os : List (StorageOp V)) (s : MemStorage V) (m : StorageView V)
      → Shows s m
      → Shows (storage_run os s) (view_run os m)
  unfolding storage_run view_run
  run-Shows [] s m r = r
  run-Shows (o ∷ os) s m r = run-Shows os (storage_step o s) (view_step o m) (step-Shows o s m r)
