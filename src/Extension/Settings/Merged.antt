-- ===== src/Extension/Settings/Merged.antt =====
-- pkg/download/extension.go: the settings of an extension after an update.
use Prim.Native.String.{String}
use text.Mathlib.Text.{◌==◌ as str_eq}
use text.Mathlib.TextEquality.{eq_iff}
use gopeed_torbox.Base.{
  ◌≡◌, refl, Bool, true, false, Option, none, some, List, [], ◌∷◌, ◌++◌, if◌then◌else◌, arith,
  Bool-cases, inl, inr, Option-cases, ap,
}
use gopeed_torbox.Extension.Manifest.{Setting}
use gopeed_torbox.Extension.Settings.{
  has_setting, append_missing, remove_gone, merge_setting, refresh_setting, refresh_settings,
  merge_settings,
}

module _ {V : Type 0} where
  -- The first setting with a name.
  unfoldable pub setting_of : String → List (Setting V) → Option (Setting V)
  setting_of k [] = none
  setting_of k (s ∷ ss) = if str_eq s.name k then some s else setting_of k ss

  -- No name twice.
  unfoldable pub distinct_names : List (Setting V) → Bool
  distinct_names [] = true
  distinct_names (s ∷ ss) = if has_setting s.name ss then false else distinct_names ss

  -- Of the old and of the new setting with a name, what is there after an update.
  abbrev pub updated : Option (Setting V) → Option (Setting V) → Option (Setting V)
  updated old none = none
  updated none (some n) = some n
  updated (some s) (some n) = some (record {
    name = s.name;
    title = n.title;
    description = n.description;
    required = s.required;
    type = n.type;
    value = if str_eq s.type n.type then s.value else n.value;
    options = n.options;
  })

  merge_setting-updated : (n s : Setting V) → some (merge_setting n s) ≡ updated (some s) (some n)
  unfolding merge_setting
  merge_setting-updated n s = elim (Bool-cases (str_eq s.type n.type)) [
    | inl q ↦ rw (q, merge_setting, (eq_iff s.type n.type).0 q) refl
    | inr q ↦ rw (q, merge_setting) refl
  ]

  abbrev or_else : Option (Setting V) → Option (Setting V) → Option (Setting V)
  or_else none n = n
  or_else (some s) n = some s

  setting_of-missing :
      (k : String) (ss : List (Setting V)) → has_setting k ss ≡ false → setting_of k ss ≡ none
  unfolding setting_of has_setting
  setting_of-missing k [] h = refl
  setting_of-missing k (s ∷ ss) h = ground (arith, setting_of-missing k ss)

  -- The setting that a name has.
  setting_of-found :
      (k : String) (ss : List (Setting V))
      → has_setting k ss ≡ true
      → (s : Setting V) × (setting_of k ss ≡ some s) × (s.name ≡ k)
  unfolding setting_of has_setting
  setting_of-found k [] h = cc
  setting_of-found k (s ∷ ss) h = elim (Bool-cases (str_eq s.name k)) [
    | inl q ↦ rw q (s, refl, (eq_iff s.name k).0 q)
    | inr q ↦ rw q (setting_of-found k ss (rw q at h))
  ]

  setting_of-append :
      (k : String) (ss : List (Setting V)) (n : Setting V)
      → setting_of k (ss ++ n ∷ [])
        ≡ or_else (setting_of k ss) (if str_eq n.name k then some n else none)
  unfolding setting_of
  setting_of-append k [] n = ground arith
  setting_of-append k (s ∷ ss) n = ground (arith, setting_of-append k ss n)

  setting_of-append_missing :
      (k : String) (new old : List (Setting V))
      → setting_of k (append_missing old new) ≡ or_else (setting_of k old) (setting_of k new)
  unfolding append_missing setting_of
  setting_of-append_missing k [] old = ground arith
  setting_of-append_missing k (n ∷ ns) old = elim (Bool-cases (has_setting n.name old)) [
    | inl q ↦
        let (s, found, name) = setting_of-found n.name old q in
        rw q (ground (arith, setting_of-append_missing k ns old, eq_iff n.name k))
    | inr q ↦
        let missing = setting_of-missing n.name old q in
        rw q (
          ground (
            arith,
            setting_of-append_missing k ns (old ++ n ∷ []),
            setting_of-append k old n,
            eq_iff n.name k,
          ))
  ]

  setting_of-remove_gone :
      (k : String) (new ss : List (Setting V))
      → setting_of k (remove_gone new ss) ≡ (if has_setting k new then setting_of k ss else none)
  unfolding remove_gone setting_of
  setting_of-remove_gone k new [] = ground arith
  setting_of-remove_gone k new (s ∷ ss) =
      ground (arith, setting_of-remove_gone k new ss, eq_iff s.name k)

  name-merge_setting : (n s : Setting V) → (merge_setting n s).name ≡ s.name
  unfolding merge_setting
  name-merge_setting n s = ground arith

  merge_setting_self : (n : Setting V) → merge_setting n n ≡ n
  unfolding merge_setting
  merge_setting_self n = rw ((eq_iff n.type n.type).1 refl)

  -- An old setting with a new one of its name.
  abbrev refreshed : Option (Setting V) → Option (Setting V) → Option (Setting V)
  refreshed s none = s
  refreshed none (some n) = none
  refreshed (some s) (some n) = some (merge_setting n s)

  setting_of-refresh_setting :
      (k : String) (n : Setting V) (ss : List (Setting V))
      → setting_of k (refresh_setting n ss)
        ≡ refreshed (setting_of k ss) (if str_eq n.name k then some n else none)
  unfolding refresh_setting setting_of
  setting_of-refresh_setting k n [] = ground arith
  setting_of-refresh_setting k n (s ∷ ss) = ground (
    arith,
    setting_of-refresh_setting k n ss,
    name-merge_setting n s,
    eq_iff s.name n.name,
    eq_iff n.name k,
    eq_iff s.name k,
    eq_iff (merge_setting n s).name k,
  )

  setting_of-refresh_settings :
      (k : String) (new ss : List (Setting V))
      → distinct_names new ≡ true
      → setting_of k (refresh_settings new ss) ≡ refreshed (setting_of k ss) (setting_of k new)
  unfolding refresh_settings setting_of distinct_names
  setting_of-refresh_settings k [] ss h = refl
  setting_of-refresh_settings k (n ∷ ns) ss h = ground (
    arith,
    setting_of-refresh_settings k ns (refresh_setting n ss),
    setting_of-refresh_setting k n ss,
    setting_of-missing n.name ns,
    eq_iff n.name k,
  )

  -- After an update whose new settings have no name twice, a name has a setting if the new version
  -- has one for it. It is the new setting, if there was none before. If there was one, it has the
  -- new title, description, options and type, keeps its name and whether it is required, and keeps
  -- its value if the type is the same; else it has the new value.
  pub setting_of-merge_settings :
      (k : String) (old new : List (Setting V))
      → distinct_names new ≡ true
      → setting_of k (merge_settings old new) ≡ updated (setting_of k old) (setting_of k new)
  unfolding merge_settings
  setting_of-merge_settings k old new h =
      let appended = append_missing old new in
      let merged = setting_of-refresh_settings k new (remove_gone new appended) h in
      let kept = setting_of-remove_gone k new appended in
      let all = setting_of-append_missing k new old in
      elim (Bool-cases (has_setting k new)) [
        | inl q ↦
            let (n, found, name) = setting_of-found k new q in
            elim (Option-cases (setting_of k old)) [
              | inl fresh ↦ rw (merged, kept, all, q, found, fresh) (ap some (merge_setting_self n))
              | inr (s, old_one) ↦
                  rw (merged, kept, all, q, found, old_one) (merge_setting-updated n s)
            ]
        | inr q ↦ let missing = setting_of-missing k new q in ground arith
      ]
