-- ===== src/Torrent/Fetcher/Chosen.antt =====
-- internal/protocol/bt/fetcher.go: the files that are downloaded after a patch.
use gopeed_torbox.Base.{
  ℕ, zero, suc, ◌+◌, ◌≤◌, ◌<◌, ◌≡◌, refl, ap, ◌∙◌, Bool, true, false, ◌||◌, ◌&&◌, not, ltb, map,
  Option, some, List, [], ◌∷◌, arith, ◌==◌, if◌then◌else◌, length, Bool-cases, inl, inr, ==_iff,
}
use gopeed_torbox.Download.Resource.{contains}
use gopeed_torbox.Torrent.Fetcher.{
  all_below, Torrents, Fetcher, ℤ, patch, download_selected, download_each, patched_with,
  patched_res, zeros, patched_torrent, valid_select_files, file_count, pos, negsuc,
}

-- No index twice.
unfoldable pub no_repeat : List ℕ → Bool
unfolding contains
no_repeat [] = true
no_repeat (i ∷ is) = if contains is i then false else no_repeat is

omit : ℕ → List ℕ → List ℕ
omit n [] = []
omit n (i ∷ is) = let rest = omit n is in if i == n then rest else i ∷ rest

omit-other : (n : ℕ) (is : List ℕ) → contains is n ≡ false → omit n is ≡ is
unfolding omit contains
omit-other n [] h = refl
omit-other n (i ∷ is) h = ground (arith, omit-other n is)

length-omit : (n : ℕ) (is : List ℕ) → no_repeat is ≡ true → length is ≤ length (omit n is) + 1
unfolding omit no_repeat
length-omit n [] h = omega arith
length-omit n (i ∷ is) h = ground (arith, length-omit n is, omit-other n is)

contains-omit : (n k : ℕ) (is : List ℕ) → contains is k ≡ false → contains (omit n is) k ≡ false
unfolding omit contains
contains-omit n k [] h = refl
contains-omit n k (i ∷ is) h = ground (arith, contains-omit n k is)

no_repeat-omit : (n : ℕ) (is : List ℕ) → no_repeat is ≡ true → no_repeat (omit n is) ≡ true
unfolding omit no_repeat
no_repeat-omit n [] h = refl
no_repeat-omit n (i ∷ is) h = ground (arith, no_repeat-omit n is, contains-omit n i is)

all_below-omit :
    (n : ℕ) (is : List ℕ) → all_below (suc n) is ≡ true → all_below n (omit n is) ≡ true
unfolding omit all_below
all_below-omit n [] h = refl
all_below-omit n (i ∷ is) h = ground (arith, all_below-omit n is)

-- As many different numbers below `n` as there are at most.
length-no_repeat :
    (n : ℕ) (is : List ℕ) → no_repeat is ≡ true → all_below n is ≡ true → length is ≤ n
unfolding all_below
length-no_repeat zero [] h k = omega arith
length-no_repeat zero (i ∷ is) h k = ground arith
length-no_repeat (suc n) is h k = omega (
  arith,
  length-omit n is h,
  length-no_repeat n (omit n is) (no_repeat-omit n is h) (all_below-omit n is k),
)

-- All of them, if they are as many.
contains-all :
    (n i : ℕ) (is : List ℕ)
    → no_repeat is ≡ true
    → all_below n is ≡ true
    → length is ≡ n
    → i < n
    → contains is i ≡ true
unfolding no_repeat all_below
contains-all n i is h k e lt = elim (Bool-cases (contains is i)) [
  | inl q ↦ q
  | inr q ↦ ground (arith, length-no_repeat n (i ∷ is))
]

-- Whether an index was given.
unfoldable pub given : List ℤ → ℕ → Bool
given [] j = false
given (pos i ∷ is) j = i == j || given is j
given (negsuc i ∷ is) j = given is j

-- The files that are selected are those that were given and exist.
contains-valid :
    (n : ℕ) (is : List ℤ) (j : ℕ) → contains (valid_select_files n is) j ≡ (ltb j n && given is j)
unfolding valid_select_files given contains
contains-valid n [] j = ground arith
contains-valid n (pos i ∷ is) j = ground (arith, contains-valid n is j)
contains-valid n (negsuc i ∷ is) j = contains-valid n is j

zeros-map : (is : List ℕ) → zeros is ≡ map (λ i. 0) is
zeros-map [] = refl
zeros-map (i ∷ is) = ap (λ r. 0 ∷ r) (zeros-map is)

-- As many indices as there are files, one of them twice.
abbrev pub too_many : List ℕ → ℕ → Bool
unfolding no_repeat
too_many is n = length is == n && not (no_repeat is)

all-or_repeated :
    (n j : ℕ) (is : List ℕ)
    → all_below n is ≡ true
    → length is ≡ n
    → j < n
    → (contains is j || too_many is n) ≡ true
unfolding too_many
all-or_repeated n j is below full lt = elim (Bool-cases (no_repeat is)) [
  | inl q ↦ let here = contains-all n j is q below full lt in ground (arith, here)
  | inr q ↦
      let same : (length is == n) ≡ true = (==_iff (length is) n).1 full in ground (arith, q, same)
]

module _ {T : Type 0} (lib : Torrents T) where
  wants-download_each :
      (is : List ℕ) (j : ℕ) (t : T)
      → lib.wants (download_each lib is t) j ≡ (contains is j || lib.wants t j)
  unfolding download_each contains
  wants-download_each [] j t = refl
  wants-download_each (i ∷ is) j t =
      ground (arith, wants-download_each is j (lib.download i t), lib.wants-download i j t)

  all_below-valid : (n : ℕ) (is : List ℤ) → all_below n (valid_select_files n is) ≡ true
  unfolding all_below valid_select_files
  all_below-valid n [] = refl
  all_below-valid n (negsuc i ∷ is) = all_below-valid n is
  all_below-valid n (pos i ∷ is) = ground (arith, all_below-valid n is)

  download_selected-cases :
      (is : List ℕ) (t : T)
      → all_below (lib.count t) is ≡ true
      → (u : T) × (download_selected lib is t ≡ some u)
        × ((j : ℕ)
            → j < lib.count t
            → lib.wants u j ≡ ((contains is j || too_many is (lib.count t)) || lib.wants t j))
  unfolding download_selected too_many
  download_selected-cases is t below = elim (Bool-cases (length is == lib.count t)) [
    | inl q ↦ (
      lib.download_all t,
      rw (download_selected, q) refl,
      λ j lt.
          let all =
            all-or_repeated (lib.count t) j is below ((==_iff (length is) (lib.count t)).0 q) lt in
          rw (lib.wants-download_all j t lt, all) refl,
    )
    | inr q ↦ (
      download_each lib is t,
      rw (download_selected, q, below) refl,
      λ j lt. let each = wants-download_each is j t in ground (arith, each, q),
    )
  ]

  -- The fetcher after a patch of its files.
  abbrev patched : List ℕ → T → Fetcher T → Fetcher T
  patched select u f = record {
    torrent = some u;
    select_files = select;
    res = patched_res lib select f.res;
    progress = some (zeros select);
  }

  patched_torrent-some :
      (select : List ℕ) (t u : T)
      → download_selected lib select (lib.cancel_all t) ≡ some u
      → patched_torrent lib select (some t) ≡ some (some u)
  unfolding patched_torrent
  patched_torrent-some select t u done = rw (patched_torrent, done) refl

  patch-patched :
      (is : List ℤ) (f : Fetcher T) (t u : T)
      → f.torrent ≡ some t
      → download_selected lib (valid_select_files (file_count f.res) is) (lib.cancel_all t) ≡ some u
      → patch lib (some is) f ≡ some (patched (valid_select_files (file_count f.res) is) u f)
  unfolding patch patched_with patched_torrent patched_res
  patch-patched is f t u here done =
      let select = valid_select_files (file_count f.res) is in
      ap (λ (o : Option T). patched_with lib select f (patched_torrent lib select o)) here
      ∙ ap (patched_with lib select f) (patched_torrent-some select t u done)

  -- A patch of the files of a torrent with as many files as its resource does not panic. A file is
  -- selected if its index was given and exists, and the progress has an entry of 0 for each index
  -- of the selection. Each file is to be downloaded if it is selected, or if the library still
  -- wants it after the pieces were cancelled; and all are, if an index is selected twice and there
  -- are as many indices as files.
  pub patch-wants :
      (is : List ℤ) (f : Fetcher T) (t : T)
      → f.torrent ≡ some t
      → lib.count t ≡ file_count f.res
      → (g : Fetcher T) × (u : T) × (patch lib (some is) f ≡ some g)
        × (g.torrent ≡ some u)
        × ((j : ℕ) → contains g.select_files j ≡ (ltb j (file_count f.res) && given is j))
        × (g.progress ≡ some (map (λ i. 0) g.select_files))
        × ((j : ℕ)
            → j < file_count f.res
            → lib.wants u j ≡ (
                (contains g.select_files j || too_many g.select_files (file_count f.res))
                || lib.wants (lib.cancel_all t) j))
  unfolding patched_res
  patch-wants is f t here same =
      let n = file_count f.res in
      let select = valid_select_files n is in
      let count : lib.count (lib.cancel_all t) ≡ n = lib.count-cancel_all t ∙ same in
      let below : all_below (lib.count (lib.cancel_all t)) select ≡ true =
        rw count (all_below-valid n is) in
      let (u, done, wants) = download_selected-cases select (lib.cancel_all t) below in
      (
        patched select u f,
        u,
        patch-patched is f t u here done,
        refl,
        contains-valid n is,
        ap some (zeros-map select),
        λ j lt. rw count at (wants j (rw count lt)),
      )

  -- If as many valid indices are given as the torrent and its resource have files, then every file
  -- is to be downloaded after the patch, also one that is not selected because another index is
  -- given twice.
  pub patch-repeated :
      (is : List ℤ) (f : Fetcher T) (t : T)
      → f.torrent ≡ some t
      → lib.count t ≡ file_count f.res
      → length (valid_select_files (file_count f.res) is) ≡ file_count f.res
      → (g : Fetcher T) × (u : T) × (patch lib (some is) f ≡ some g)
        × (g.torrent ≡ some u)
        × ((j : ℕ) → j < file_count f.res → lib.wants u j ≡ true)
  unfolding download_selected patched_res
  patch-repeated is f t here same full =
      let select = valid_select_files (file_count f.res) is in
      let cancelled = lib.cancel_all t in
      let count : lib.count cancelled ≡ file_count f.res = lib.count-cancel_all t ∙ same in
      let equal : (length select == lib.count cancelled) ≡ true = ground (arith, full, count) in
      let u = lib.download_all cancelled in
      let done : download_selected lib select cancelled ≡ some u =
        rw (download_selected, equal) refl in
      (
        patched select u f,
        u,
        patch-patched is f t u here done,
        refl,
        λ j lt. lib.wants-download_all j cancelled (rw count lt),
      )
