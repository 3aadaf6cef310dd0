-- ===== src/Download/Create/Options.antt =====
-- pkg/download/downloader.go: the download directory that `initOptions` accepts.
use Prim.Native.String.{String}
use gopeed_torbox.Base.{
  ℕ, zero, suc, ◌≡◌, refl, inl, inr, Bool, true, false, Option, some, List, [], ◌∷◌, arith,
  get_elem?, Option-cases, Bool-cases, subst,
}
use gopeed_torbox.Download.Create.{TaskOptions, Today, in_white_list, filled_options, init_options}

module _ (glob : String → String → Option Bool) where
  -- The directory of the list that the path matches.
  abbrev pub Listed : List String → String → Type 0
  Listed dirs path =
      (i : ℕ) × (dir : String) × (get_elem? dirs i ≡ some dir) × (glob dir path ≡ some true)

  later :
      (dir : String) (dirs : List String) (path : String)
      → Listed dirs path
      → Listed (dir ∷ dirs) path
  later dir dirs path (i, d, g, e) = (suc i, d, g, e)

  in_white_list-Listed :
      (dirs : List String) (path : String) → in_white_list glob dirs path ≡ true → Listed dirs path
  unfolding in_white_list
  in_white_list-Listed [] path h = cc
  in_white_list-Listed (dir ∷ dirs) path h = elim (Option-cases (glob dir path)) [
    | inl e ↦ later dir dirs path (in_white_list-Listed dirs path (ground (arith, e, h)))
    | inr (true, e) ↦ (zero, dir, refl, e)
    | inr (false, e) ↦ later dir dirs path (in_white_list-Listed dirs path (ground (arith, e, h)))
  ]

  -- With a white list of directories, the options of a new task that initOptions returns without
  -- error have a path that one of the directories of the list matches, after the placeholders were
  -- replaced.
  pub init_options-Listed :
      (replace : String → String → String → String) (now : Today) (download_dir first : String)
      (others : List String) (opts : Option TaskOptions) (o : TaskOptions)
      → init_options replace now glob download_dir (first ∷ others) opts ≡ some o
      → Listed (first ∷ others) o.path
  unfolding init_options
  init_options-Listed replace now download_dir first others opts o h =
      let p = (filled_options replace now glob download_dir (first ∷ others) opts).path in
      elim (Bool-cases (in_white_list glob (first ∷ others) p)) [
        | inl e ↦
            let done : init_options replace now glob download_dir (first ∷ others) opts
                ≡ some (filled_options replace now glob download_dir (first ∷ others) opts) =
              rw (e, init_options) refl in
            let same : p ≡ o.path = cc in
            subst (Listed (first ∷ others)) same (in_white_list-Listed (first ∷ others) p e)
        | inr e ↦ absurd (ground (arith, e, h))
      ]
