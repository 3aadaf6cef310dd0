-- ===== src/Download/Storage.antt =====
-- pkg/download/storage.go: the storage in memory, buckets of values by keys. The lock makes each
-- operation one step. `list` gives the values of a bucket in the order of the model's list, where the
-- source ranges over a map.
pub mod Laws
pub mod Refines
pub mod Interface
use Prim.Native.String.{String}
use gopeed_torbox.Base.{
  ◌≡◌, Bool, true, false, Option, none, some, List, [], ◌∷◌, ◌++◌, map, Assoc, lookup, insert,
  without,
}

pub record MemStorage {ℓ} (V : Type ℓ) : Type ℓ where
  pub buckets : Assoc (Assoc V)

-- `changeValue` for a pointer or a plain value: what the target holds after it; `none` is nil.
unfoldable pub change_value {ℓ} : {A : Type ℓ} → A → Option A → A
change_value p none = p
change_value p (some v) = v

-- `changeValue` for a slice: its elements are appended to those of the target.
unfoldable pub change_slice {ℓ} : {A : Type ℓ} → List A → List A → List A
change_slice p [] = p
change_slice p (v ∷ vs) = p ++ (v ∷ vs)

module _ {ℓ} {V : Type ℓ} where
  unfoldable pub new_mem_storage : MemStorage V
  new_mem_storage = record { buckets = [] }

  unfoldable pub bucket_of : String → MemStorage V → Option (Assoc V)
  bucket_of b s = lookup b s.buckets

  abbrev pub make_bucket : String → MemStorage V → Option (Assoc V) → MemStorage V
  make_bucket b s none = record s { buckets = insert b [] s.buckets }
  make_bucket b s (some m) = s

  unfoldable pub setup : List String → MemStorage V → MemStorage V
  setup [] s = s
  setup (b ∷ bs) s = setup bs (make_bucket b s (bucket_of b s))

  -- Without the bucket nothing is stored, and no error is returned.
  abbrev pub put_into : String → String → V → MemStorage V → Option (Assoc V) → MemStorage V
  put_into b k v s none = s
  put_into b k v s (some m) = record s { buckets = insert b (insert k v m) s.buckets }

  unfoldable pub put : String → String → V → MemStorage V → MemStorage V
  put b k v s = put_into b k v s (bucket_of b s)

  abbrev pub value_in : String → Option (Assoc V) → Option V
  value_in k none = none
  value_in k (some m) = lookup k m

  -- The value found, with which `Get` changes its target and returns true.
  unfoldable pub get : String → String → MemStorage V → Option V
  get b k s = value_in k (bucket_of b s)

  abbrev pub delete_from : String → String → MemStorage V → Option (Assoc V) → MemStorage V
  delete_from b k s none = s
  delete_from b k s (some m) = record s { buckets = insert b (without k m) s.buckets }

  unfoldable pub delete : String → String → MemStorage V → MemStorage V
  delete b k s = delete_from b k s (bucket_of b s)

  -- The target after it, and the storage.
  unfoldable pub pop : String → String → V → MemStorage V → V × MemStorage V
  pop b k v s = (change_value v (get b k s), delete b k s)

  abbrev pub values_of : Assoc V → List V
  values_of [] = []
  values_of ((k, v) ∷ m) = v ∷ values_of m

  abbrev pub bucket_values : Option (Assoc V) → List V
  bucket_values none = []
  bucket_values (some m) = values_of m

  unfoldable pub list : String → List V → MemStorage V → List V
  list b target s = change_slice target (bucket_values (bucket_of b s))

  unfoldable pub clear : MemStorage V → MemStorage V
  clear s = record s { buckets = [] }
