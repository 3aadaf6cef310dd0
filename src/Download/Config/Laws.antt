-- ===== src/Download/Config/Laws.antt =====
-- pkg/base/model.go: the defaults of the configuration, and its merging.
use Prim.Native.String.{String}
use text.Mathlib.Text.{◌==◌ as str_eq}
use text.Mathlib.TextEquality.{eq_iff}
use gopeed_torbox.Base.{
  ℕ, ◌<◌, ◌≡◌, refl, ◌∙◌, inl, inr, Option, none, some, [], ◌∷◌, ◌==◌, if◌then◌else◌, arith, Assoc,
  lookup, lookup-insert, Option-cases,
}
use gopeed_torbox.Download.Config.{
  Sections, DownloaderStoreConfig, otherwise, init, merge, stored_or_first, with_default,
  fill_defaults, protocols, with_defaults, load_config, persisted_config,
}

otherwise-otherwise {ℓ} :
    {A : Type ℓ} (p q r : Option A) → otherwise (otherwise p q) r ≡ otherwise p (otherwise q r)
otherwise-otherwise none q r = refl
otherwise-otherwise (some p) q r = refl

module _ {ℓ} {A : Type ℓ} where
  lookup-with_default :
      (i name : String) (d : A) (m : Assoc A)
      → lookup i (with_default name d m (lookup name m))
        ≡ otherwise (lookup i m) (if str_eq name i then some d else none)
  lookup-with_default i name d m = elim (Option-cases (lookup name m)) [
    | inl e ↦ ground (arith, e, lookup-insert i name d m, eq_iff name i)
    | inr (v, e) ↦ ground (arith, e, eq_iff name i)
  ]

  -- Each protocol has what was configured for it, and else the default of the first manager of its name.
  pub lookup-fill_defaults :
      (i : String) (managers m : Assoc A)
      → lookup i (fill_defaults managers m) ≡ otherwise (lookup i m) (lookup i managers)
  unfolding fill_defaults lookup
  lookup-fill_defaults i [] m = ground arith
  lookup-fill_defaults i ((name, d) ∷ managers) m =
      let rest = lookup-fill_defaults i managers (with_default name d m (lookup name m)) in
      ground (arith, eq_iff name i, rest, lookup-with_default i name d m)

  fill_defaults-present :
      (managers m : Assoc A)
      → ((i : String) → lookup i m ≡ none → lookup i managers ≡ none)
      → fill_defaults managers m ≡ m
  unfolding fill_defaults lookup
  fill_defaults-present [] m h = refl
  fill_defaults-present ((name, d) ∷ managers) m h =
      let rest =
        fill_defaults-present managers m (λ i e. ground (arith, e, h i e, eq_iff name i)) in
      elim (Option-cases (lookup name m)) [
        | inl e ↦ absurd (ground (arith, h name e, eq_iff name name))
        | inr (v, e) ↦ rw e rest
      ]

str_if :
    (a b d : String)
    → (if str_eq (if str_eq a "" then b else a) "" then d else if str_eq a "" then b else a)
      ≡ (if str_eq a "" then if str_eq b "" then d else b else a)
str_if a b d = ground arith

num_if :
    (a b d : ℕ)
    → (if (if a == 0 then b else a) == 0 then d else if a == 0 then b else a)
      ≡ (if a == 0 then if b == 0 then d else b else a)
num_if a b d = ground arith

count_if :
    (a : ℕ)
    → (if (if a == 0 then 5 else a) == 0 then 5 else if a == 0 then 5 else a)
      ≡ (if a == 0 then 5 else a)
count_if a = ground arith

fill_twice {ℓ} :
    {A : Type ℓ} (managers m : Assoc A)
    → fill_defaults managers (fill_defaults managers m) ≡ fill_defaults managers m
fill_twice managers m =
    fill_defaults-present managers (fill_defaults managers m)
      (λ i e. ground (arith, e, lookup-fill_defaults i managers m))

module _ {c : Sections} where
  pub max_running-init : (cfg : DownloaderStoreConfig c) → 0 < (init cfg).max_running
  unfolding init
  max_running-init cfg = ground arith

  pub merge-merge :
      (a b d : DownloaderStoreConfig c)
      → merge (merge a (some b)) (some d) ≡ merge a (some (merge b (some d)))
  unfolding merge
  merge-merge a b d = simp (
    otherwise-otherwise,
    str_if a.download_dir b.download_dir d.download_dir,
    num_if a.max_running b.max_running d.max_running,
  )

  with_defaults-with_defaults :
      (managers : Assoc c.Value) (cfg : DownloaderStoreConfig c)
      → with_defaults managers (persisted_config (with_defaults managers cfg))
        ≡ persisted_config (with_defaults managers cfg)
  unfolding with_defaults persisted_config init
  with_defaults-with_defaults managers cfg = simp (
    otherwise-otherwise,
    count_if cfg.max_running,
    fill_twice managers (protocols (otherwise cfg.protocol_config (some []))),
  )

  -- The configuration that Setup makes, written as JSON and read by the next Setup with the same
  -- fetcher managers, is the same again, but for the flag of the first load.
  pub load_config-load_config :
      (managers : Assoc c.Value) (read : Option (DownloaderStoreConfig c))
      → load_config managers (some (persisted_config (load_config managers read)))
        ≡ persisted_config (load_config managers read)
  unfolding load_config stored_or_first
  load_config-load_config managers read =
      with_defaults-with_defaults managers (stored_or_first read)

  -- After Setup each protocol has the configuration that was stored for it, and else the default
  -- of the first fetcher manager of its name.
  pub lookup-load_config :
      (i : String) (managers : Assoc c.Value) (read : Option (DownloaderStoreConfig c))
      → lookup i (protocols (load_config managers read).protocol_config)
        ≡ otherwise
            (lookup i (protocols (stored_or_first read).protocol_config))
            (lookup i managers)
  unfolding load_config with_defaults init lookup
  lookup-load_config i managers read =
      let m = (stored_or_first read).protocol_config in
      lookup-fill_defaults i managers (protocols (otherwise m (some [])))
      ∙ elim (Option-cases m) [ inl e ↦ rw e refl | inr (v, e) ↦ rw e refl ]
