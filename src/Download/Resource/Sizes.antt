-- ===== src/Download/Resource/Sizes.antt =====
-- pkg/base/model.go: the size of a selection of files.
use gopeed_torbox.Base.{
  ℕ, zero, suc, ◌+◌, ◌≤◌, ◌<◌, ◌≡◌, refl, true, List, [], ◌∷◌, length, arith, ap,
}
use gopeed_torbox.Download.Resource.{
  FileInfo, Resource, contains, size_from, calc_size, indices_from, init_select_files,
}

contains-indices : (i j n : ℕ) → i ≤ j → j < i + n → contains (indices_from i n) j ≡ true
unfolding contains indices_from
contains-indices i j zero l h = absurd (omega (arith, l, h))
contains-indices i j (suc n) l h = ground (arith, contains-indices (suc i) j n)

size-all :
    (select : List ℕ) (i : ℕ) (fs : List FileInfo)
    → ((j : ℕ) → i ≤ j → j < i + length fs → contains select j ≡ true)
    → size_from select i fs ≡ size_from [] i fs
unfolding size_from
size-all select i [] h = refl
size-all select i (f ∷ fs) h =
    let rest = size-all select (suc i) fs (λ j l u. h j (omega (arith, l)) (omega (arith, u))) in
    ground (arith, h i (omega arith) (omega arith), rest)

-- Selecting all files by `InitSelectFiles` gives the size that no selection gives.
pub calc_size-init_select_files :
    (select : List ℕ) (r : Resource)
    → calc_size (init_select_files (length r.files) select) r ≡ calc_size select r
unfolding calc_size init_select_files
calc_size-init_select_files [] r =
    let n = length r.files in
    ap (λ k. record r { size = k })
      (size-all (indices_from 0 n) 0 r.files (λ j l u. contains-indices 0 j n l u))
calc_size-init_select_files (i ∷ is) r = refl
